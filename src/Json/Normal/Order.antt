-- ===== src/Json/Normal/Order.antt =====
-- The fields of a canonical object are in order, and a canonical value is its own canonical form.
use Prim.Native.Nat.{Ordering, compare as compare_nat}
use Prim.Native.Char.{code}
use Prim.Native.String.{compare, then}
use Prim.Native.String.compare
use lazarus.Base.{ℕ, String, ◌≡◌, refl, sym, ap, ◌∙◌, Bool, true, false, arith}
use lazarus.Json.{
  Json, Items, Fields, null, bool, num, number, str, arr, obj, nil, cons, end, field,
}
use lazarus.Json.Normal.{
  insert_field, normal, normal_items, normal_fields, is_before_first, is_normal, items_normal,
  fields_normal,
}

abbrev is_gt : Ordering → Bool
is_gt o = elim o [ Ordering.gt ↦ true | _ ↦ false ]

abbrev is_eq : Ordering → Bool
is_eq o = elim o [ Ordering.eq ↦ true | _ ↦ false ]

abbrev is_lt : Ordering → Bool
is_lt o = elim o [ Ordering.lt ↦ true | _ ↦ false ]

nat_flip : (a b : ℕ) → is_gt (compare_nat a b) ≡ true → is_lt (compare_nat b a) ≡ true
nat_flip a b h = ground (arith, h)

nat_eq_flip : (a b : ℕ) → is_eq (compare_nat a b) ≡ true → is_eq (compare_nat b a) ≡ true
nat_eq_flip a b h = ground (arith, h)

then_flip :
    (o p q r : Ordering)
    → (is_gt o ≡ true → is_lt q ≡ true)
    → (is_eq o ≡ true → is_eq q ≡ true)
    → (is_gt p ≡ true → is_lt r ≡ true)
    → is_gt (then o p) ≡ true
    → is_lt (then q r) ≡ true
then_flip Ordering.lt p q r f g k h = ground (arith, h)
then_flip Ordering.eq p Ordering.eq r f g k h = k h
then_flip Ordering.eq p Ordering.lt r f g k h = refl
then_flip Ordering.eq p Ordering.gt r f g k h = ground (arith, g refl)
then_flip Ordering.gt p Ordering.lt r f g k h = refl
then_flip Ordering.gt p Ordering.eq r f g k h = ground (arith, f refl)
then_flip Ordering.gt p Ordering.gt r f g k h = ground (arith, f refl)

-- what is after another text has that text before it
compare-flip : (s t : String) → is_gt (compare s t) ≡ true → is_lt (compare t s) ≡ true
compare-flip String.[] String.[] h = absurd (ground (arith, sym (ap is_gt compare.nil-nil) ∙ h))
compare-flip String.[] (String.◌∷◌ d t) h =
    absurd (ground (arith, sym (ap is_gt (compare.nil-cons d t)) ∙ h))
compare-flip (String.◌∷◌ c s) String.[] h = ap is_lt (compare.nil-cons c s)
compare-flip (String.◌∷◌ c s) (String.◌∷◌ d t) h =
    ap is_lt (compare.cons-cons d c t s)
    ∙ then_flip (compare_nat (code c) (code d)) (compare s t) (compare_nat (code d) (code c))
        (compare t s) (nat_flip (code c) (code d)) (nat_eq_flip (code c) (code d))
        (compare-flip s t) (sym (ap is_gt (compare.cons-cons c d s t)) ∙ h)

-- a key before both stays before the fields with the other in front
before-insert_field :
    (j k : String) (v : Json) (fs : Fields)
    → is_lt (compare j k) ≡ true
    → is_before_first j fs ≡ true
    → is_before_first j (insert_field k v fs) ≡ true
unfolding insert_field
before-insert_field j k v end a b = a
before-insert_field j k v (field i w fs) a b = by_order (compare k i)
  where
    by_order :
        (o : Ordering)
        → is_before_first j (elim o [
          | Ordering.lt ↦ field k v (field i w fs)
          | Ordering.eq ↦ field i w fs
          | Ordering.gt ↦ field i w (insert_field k v fs)
        ])
          ≡ true
    by_order Ordering.lt = a
    by_order Ordering.eq = b
    by_order Ordering.gt = b

insert_field-normal :
    (k : String) (v : Json) (fs : Fields)
    → is_normal v ≡ true
    → fields_normal fs ≡ true
    → fields_normal (insert_field k v fs) ≡ true
unfolding insert_field fields_normal
insert_field-normal k v end h hs = ground (arith, h)
insert_field-normal k v (field i w fs) h hs =
    by_order (compare k i) (λ a. a) (compare-flip k i) (λ rest. insert_field-normal k v fs h rest)
  where
    by_order :
        (o : Ordering)
        → (is_lt o ≡ true → is_lt (compare k i) ≡ true)
        → (is_gt o ≡ true → is_lt (compare i k) ≡ true)
        → (fields_normal fs ≡ true → fields_normal (insert_field k v fs) ≡ true)
        → fields_normal (elim o [
          | Ordering.lt ↦ field k v (field i w fs)
          | Ordering.eq ↦ field i w fs
          | Ordering.gt ↦ field i w (insert_field k v fs)
        ])
          ≡ true
    by_order Ordering.lt f g further = ground (arith, h, hs, f refl)
    by_order Ordering.eq f g further = hs
    by_order Ordering.gt f g further = ground (
      arith,
      hs,
      before-insert_field i k v fs (g refl) (ground (arith, hs)),
      further (ground (arith, hs)),
    )

mutual
  unfolding normal normal_items normal_fields is_normal items_normal fields_normal

  normal-IsNormal : (v : Json) → is_normal (normal v) ≡ true
  normal-IsNormal null = refl
  normal-IsNormal (bool b) = refl
  normal-IsNormal (num n) = refl
  normal-IsNormal (number c s) = refl
  normal-IsNormal (str s) = refl
  normal-IsNormal (arr vs) = normal_items-IsNormal vs
  normal-IsNormal (obj fs) = normal_fields-IsNormal fs

  normal_items-IsNormal : (vs : Items) → items_normal (normal_items vs) ≡ true
  normal_items-IsNormal nil = refl
  normal_items-IsNormal (cons v vs) = ground (arith, normal-IsNormal v, normal_items-IsNormal vs)

  normal_fields-IsNormal : (fs : Fields) → fields_normal (normal_fields fs) ≡ true
  normal_fields-IsNormal end = refl
  normal_fields-IsNormal (field k v fs) =
      insert_field-normal k (normal v) (normal_fields fs) (normal-IsNormal v)
        (normal_fields-IsNormal fs)

insert_field-before :
    (k : String) (v : Json) (fs : Fields)
    → is_before_first k fs ≡ true
    → insert_field k v fs ≡ field k v fs
unfolding insert_field
insert_field-before k v end h = refl
insert_field-before k v (field i w fs) h = by_order (compare k i) h
  where
    by_order :
        (o : Ordering)
        → is_lt o ≡ true
        → elim o as (λ _. Fields) [
          | Ordering.lt ↦ field k v (field i w fs)
          | Ordering.eq ↦ field i w fs
          | Ordering.gt ↦ field i w (insert_field k v fs)
        ]
          ≡ field k v (field i w fs)
    by_order Ordering.lt h = refl
    by_order Ordering.eq h = absurd (ground (arith, h))
    by_order Ordering.gt h = absurd (ground (arith, h))

mutual
  unfolding normal normal_items normal_fields is_normal items_normal fields_normal

  IsNormal-fixed : (v : Json) → is_normal v ≡ true → normal v ≡ v
  IsNormal-fixed null h = refl
  IsNormal-fixed (bool b) h = refl
  IsNormal-fixed (num n) h = refl
  IsNormal-fixed (number c s) h = refl
  IsNormal-fixed (str s) h = refl
  IsNormal-fixed (arr vs) h = ap arr (items-fixed vs h)
  IsNormal-fixed (obj fs) h = ap obj (fields-fixed fs h)

  items-fixed : (vs : Items) → items_normal vs ≡ true → normal_items vs ≡ vs
  items-fixed nil h = refl
  items-fixed (cons v vs) h =
      rw (IsNormal-fixed v (ground (arith, h)), items-fixed vs (ground (arith, h))) refl

  fields-fixed : (fs : Fields) → fields_normal fs ≡ true → normal_fields fs ≡ fs
  fields-fixed end h = refl
  fields-fixed (field k v fs) h =
      rw (IsNormal-fixed v (ground (arith, h)), fields-fixed fs (ground (arith, h)))
        (insert_field-before k v fs (ground (arith, h)))

-- A canonical value is its own canonical form.
pub normal_idem : (v : Json) → normal (normal v) ≡ normal v
normal_idem v = IsNormal-fixed (normal v) (normal-IsNormal v)
