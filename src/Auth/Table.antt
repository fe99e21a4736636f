-- ===== src/Auth/Table.antt =====
-- The token table: what `add` keeps, and whom it lets in.
use lazarus.Base.{
  String, ◌≡◌, refl, inl, inr, Bool, true, false, not, ◌&&◌, Option, none, some, List, [], ◌∷◌,
  ◌++◌, any, all, arith, eq_refl, Option-cases,
}
use lazarus.Json.{Json}
use lazarus.Auth.{Token, is_acceptable, clashes, add, load_lines, load, identify, parse_line}

module _ (digest : String → String) where
  -- no token has the name or the digest of an earlier one
  abbrev pub is_separate : List Token → Bool
  is_separate [] = true
  is_separate (t ∷ ts) = all (λ u. not (clashes digest u t)) ts && is_separate ts

  all-append :
      (p : Token → Bool) (xs : List Token) (x : Token) → all p (xs ++ x ∷ []) ≡ (all p xs && p x)
  all-append p [] x = ground arith
  all-append p (y ∷ ys) x = ground (arith, all-append p ys x)

  separate-append :
      (ts : List Token) (t : Token)
      → is_separate ts ≡ true
      → any (clashes digest t) ts ≡ false
      → is_separate (ts ++ t ∷ []) ≡ true
  separate-append [] t h free = refl
  separate-append (u ∷ us) t h free =
      ground (arith, h, free, separate-append us t, all-append (λ v. not (clashes digest v u)) us t)

  -- what a table of tokens has
  pub record IsSound (tokens : List Token) : Type 0 where
    pub acceptable : all is_acceptable tokens ≡ true
    pub separate : is_separate tokens ≡ true

  add-IsSound :
      (t : Token) (tokens : List Token) {tokens' : List Token}
      → add digest t tokens ≡ some tokens'
      → IsSound tokens
      → IsSound tokens'
  unfolding add
  add-IsSound t tokens {tokens'} h old =
      let free : any (clashes digest t) tokens ≡ false = ground (arith, h) in
      let fine : is_acceptable t ≡ true = ground (arith, h) in
      let same : tokens ++ t ∷ [] ≡ tokens' = ground (arith, h) in
      rw (← same) (record {
        acceptable = ground (arith, all-append is_acceptable tokens t, fine, old.acceptable);
        separate = separate-append tokens t old.separate free;
      })

  load_lines-IsSound :
      (lines : List (Option Json)) (tokens : List Token) {tokens' : List Token}
      → load_lines digest lines tokens ≡ some tokens'
      → IsSound tokens
      → IsSound tokens'
  unfolding load_lines
  load_lines-IsSound [] tokens {tokens'} h old =
      let same : tokens ≡ tokens' = ground (arith, h) in rw (← same) old
  load_lines-IsSound (line ∷ lines) tokens {tokens'} h old = elim (Option-cases (parse_line line)) [
    | inl bad ↦ absurd (ground (arith, h, bad))
    | inr (t, parsed) ↦ elim (Option-cases (add digest t tokens)) [
      | inl bad ↦ absurd (ground (arith, h, parsed, bad))
      | inr (added, done) ↦
          load_lines-IsSound lines added (ground (arith, h, parsed, done))
            (add-IsSound t tokens done old)
    ]
  ]
    where
      absurd : none ≡ some tokens' → IsSound tokens'
      absurd h = cc

  -- The tokens of a file that loads are all acceptable, and no two share their name or their digest.
  pub load-IsSound :
      (lines : List (Option Json)) {tokens : List Token}
      → load digest lines ≡ some tokens
      → IsSound tokens
  unfolding load
  load-IsSound lines {tokens} h =
      load_lines-IsSound lines [] (ground (arith, h))
        (record { acceptable = refl; separate = refl })

  identify-separate :
      (before : List Token) (t : Token) (after : List Token)
      → is_separate (before ++ t ∷ after) ≡ true
      → identify digest t.value (before ++ t ∷ after)
        ≡ some (record { name = t.name; role = t.role })
  unfolding identify
  identify-separate [] t after h = ground (arith, eq_refl (digest t.value))
  identify-separate (u ∷ before) t after h = ground (
    arith,
    h,
    identify-separate before t after,
    all-middle (λ v. not (clashes digest v u)) before t after,
  )
    where
      all-middle :
          (p : Token → Bool) (xs : List Token) (x : Token) (ys : List Token)
          → all p (xs ++ x ∷ ys) ≡ true
          → p x ≡ true
      all-middle p [] x ys e = ground (arith, e)
      all-middle p (y ∷ xs) x ys e = all-middle p xs x ys (ground (arith, e))

  -- The value of every token of a file that loads identifies the name and the role of that token,
  -- wherever it stands in the file.
  pub load-identify :
      (lines : List (Option Json)) (before : List Token) (t : Token) (after : List Token)
      → load digest lines ≡ some (before ++ t ∷ after)
      → identify digest t.value (before ++ t ∷ after)
        ≡ some (record { name = t.name; role = t.role })
  load-identify lines before t after h =
      identify-separate before t after (load-IsSound lines h).separate
