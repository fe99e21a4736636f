-- ===== src/Exclusion/Keys.antt =====
-- Clashes of lock keys, by the activity of their owners.
use lazarus.Base.{
  any-append, String, ◌≡◌, refl, Bool, true, false, not, ◌&&◌, ◌||◌, List, [], ◌∷◌, ◌++◌, arith,
  ◌==◌, eq_iff, eq_refl, all, any,
}

-- a lock key and the maintenance of its target
abbrev pub Key : Type 0
Key = String × String

-- two active owners of one key
abbrev pub clash : (String → Bool) → Key → Key → Bool
clash active k j = k.0 == j.0 && not (k.1 == j.1) && active k.1 && active j.1

abbrev pub any_clash : (String → Bool) → List Key → Bool
any_clash active ks = any (λ k. any (clash active k) ks) ks

any-or : (p q : Key → Bool) (ks : List Key) → any (λ k. p k || q k) ks ≡ (any p ks || any q ks)
any-or p q [] = refl
any-or p q (k ∷ ks) = ground (arith, any-or p q ks)

clash_sym : (active : String → Bool) (k j : Key) → clash active k j ≡ clash active j k
clash_sym active k j =
    ground (arith, eq_iff k.0 j.0, eq_iff j.0 k.0, eq_iff k.1 j.1, eq_iff j.1 k.1)

any-clash_sym :
    (active : String → Bool) (k : Key) (ks : List Key)
    → any (λ j. clash active j k) ks ≡ any (clash active k) ks
any-clash_sym active k [] = refl
any-clash_sym active k (j ∷ ks) = ground (arith, clash_sym active k j, any-clash_sym active k ks)

module _ (active : String → Bool) (ks : List Key) (new : Key) where
  rows :
      (js : List Key)
      → any (λ k. any (clash active k) (ks ++ new ∷ [])) js
        ≡ (any (λ k. any (clash active k) ks) js || any (λ j. clash active j new) js)
  rows [] = refl
  rows (j ∷ js) = ground (arith, rows js, any-append (clash active j) ks (new ∷ []))

  -- a key that meets no clash is added
  pub any_clash-append :
      any_clash active ks ≡ false
      → any (clash active new) ks ≡ false
      → any_clash active (ks ++ new ∷ []) ≡ false
  any_clash-append old free =
      rw (any-append (λ k. any (clash active k) (ks ++ new ∷ [])) ks (new ∷ [])) (
        ground (
          arith,
          rows ks,
          old,
          free,
          any-clash_sym active new ks,
          any-append (clash active new) ks (new ∷ []),
          eq_refl new.1,
        ))

module _ (active fewer : String → Bool) where
  -- an owner is active after only if it was before
  abbrev pub weaker : Key → Bool
  weaker k = not (fewer k.1) || active k.1

  fewer_inner :
      (k : Key) (js : List Key)
      → weaker k ≡ true
      → all weaker js ≡ true
      → any (clash active k) js ≡ false
      → any (clash fewer k) js ≡ false
  fewer_inner k [] h hs old = refl
  fewer_inner k (j ∷ js) h hs old = ground (arith, h, hs, old, fewer_inner k js)

  fewer_rows :
      (ks js : List Key)
      → all weaker ks ≡ true
      → all weaker js ≡ true
      → any (λ k. any (clash active k) js) ks ≡ false
      → any (λ k. any (clash fewer k) js) ks ≡ false
  fewer_rows [] js hk hj old = refl
  fewer_rows (k ∷ ks) js hk hj old = ground (arith, hk, hj, old, fewer_inner k js, fewer_rows ks js)

  -- With fewer active owners there is no new clash.
  pub any_clash-fewer :
      (ks : List Key)
      → all weaker ks ≡ true
      → any_clash active ks ≡ false
      → any_clash fewer ks ≡ false
  any_clash-fewer ks h old = fewer_rows ks ks h h old
