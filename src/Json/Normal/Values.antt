-- ===== src/Json/Normal/Values.antt =====
-- What a Go map has after the fields of an object are decoded into it, one after another.
use Prim.Native.Nat.{Ordering}
use Prim.Native.String.{compare}
use mathlib.Core.Path.{subst}
use text.Mathlib.TextEquality.{path_by_compare}
use text.Mathlib.TextPositions.{compare_refl}
use lazarus.Base.{
  String, ◌≡◌, refl, sym, ap, ◌∙◌, inl, inr, Bool, true, false, Bool-cases, ◌==◌, eq_iff,
  if◌then◌else◌, Option, none, some,
}
use lazarus.Json.{Json, Fields, end, field}
use lazarus.Json.Normal.{insert_field, normal, normal_fields}

-- a later field of the key counts
abbrev pub newer : Option Json → Bool → Json → Option Json
newer (some w) own v = some w
newer none own v = if own then some v else none

abbrev pub last_value : String → Fields → Option Json
last_value j end = none
last_value j (field k v fs) = newer (last_value j fs) (k == j) v

abbrev pub map_normal : Option Json → Option Json
map_normal none = none
map_normal (some v) = some (normal v)

newer-twice : (l : Option Json) (b : Bool) (w v : Json) → newer l b w ≡ newer (newer l b w) b v
newer-twice (some x) b w v = refl
newer-twice none true w v = refl
newer-twice none false w v = refl

newer-apart :
    (l : Option Json) (a b : Bool) (v w : Json)
    → (a ≡ true → b ≡ false)
    → newer (newer l a v) b w ≡ newer (newer l b w) a v
newer-apart (some x) a b v w apart = refl
newer-apart none true b v w apart = rw (apart refl) refl
newer-apart none false true v w apart = refl
newer-apart none false false v w apart = refl

abbrev IsGt : Ordering → Type 0
IsGt Ordering.gt = Unit {0}
IsGt _ = ⊥

keys-apart : (k i j : String) → compare k i ≡ Ordering.gt → (k == j) ≡ true → (i == j) ≡ false
keys-apart k i j later own = elim (Bool-cases (i == j)) [
  | inr e ↦ e
  | inl e ↦
      let same : k ≡ i = (eq_iff k j).0 own ∙ sym ((eq_iff i j).0 e) in
      let equal : compare k i ≡ Ordering.eq = ap (λ t. compare t i) same ∙ compare_refl i in
      absurd (subst IsGt (sym later ∙ equal) tt)
]

last_value-insert_field :
    (j k : String) (v : Json) (fs : Fields)
    → last_value j (insert_field k v fs) ≡ newer (last_value j fs) (k == j) v
unfolding insert_field
last_value-insert_field j k v end = refl
last_value-insert_field j k v (field i w fs) =
    by_order (compare k i) refl (last_value-insert_field j k v fs)
  where
    by_order :
        (o : Ordering)
        → compare k i ≡ o
        → last_value j (insert_field k v fs) ≡ newer (last_value j fs) (k == j) v
        → last_value j (elim o as (λ _. Fields) [
          | Ordering.lt ↦ field k v (field i w fs)
          | Ordering.eq ↦ field i w fs
          | Ordering.gt ↦ field i w (insert_field k v fs)
        ])
          ≡ newer (newer (last_value j fs) (i == j) w) (k == j) v
    by_order Ordering.lt e further = refl
    by_order Ordering.eq e further =
        newer-twice (last_value j fs) (i == j) w v
        ∙ ap (λ t. newer (newer (last_value j fs) (i == j) w) (t == j) v)
            (sym (path_by_compare k i e))
    by_order Ordering.gt e further =
        ap (λ l. newer l (i == j) w) further
        ∙ newer-apart (last_value j fs) (k == j) (i == j) v w (keys-apart k i j e)

map_normal-newer :
    (l : Option Json) (b : Bool) (v : Json)
    → newer (map_normal l) b (normal v) ≡ map_normal (newer l b v)
map_normal-newer (some x) b v = refl
map_normal-newer none true v = refl
map_normal-newer none false v = refl

-- The canonical form of an object has, for every key, the canonical form of the value that the last
-- field of the key has in the object, and no other keys.
pub last_value-normal_fields :
    (j : String) (fs : Fields) → last_value j (normal_fields fs) ≡ map_normal (last_value j fs)
unfolding normal_fields
last_value-normal_fields j end = refl
last_value-normal_fields j (field k v fs) =
    last_value-insert_field j k (normal v) (normal_fields fs)
    ∙ ap (λ l. newer l (k == j) (normal v)) (last_value-normal_fields j fs)
    ∙ map_normal-newer (last_value j fs) (k == j) v
