-- ===== src/Reads/Pages.antt =====
-- Pages that follow one another.
use lazarus.Base.{
  ◌+◌, ◌-◌, ◌∙◌, sym, ℕ, zero, suc, ◌<◌, ◌≡◌, refl, ap, Bool, true, ◌&&◌, ltb, List, [], ◌∷◌, ◌++◌,
  all, select, length, arith,
}
use lazarus.Reads.{
  Codec, page_of, is_before, reversed, events_before, event_selected, EventListOptions, take,
  nth_key,
}
use lazarus.Tables.{Db, JournalRow}

module _ {ℓ} {A : Type ℓ} (key : A → ℕ) where
  -- the keys fall
  abbrev pub is_descending : List A → Bool
  is_descending [] = true
  is_descending (x ∷ xs) = all (λ y. ltb (key y) (key x)) xs && is_descending xs

  select-below :
      (x : A) (xs : List A)
      → all (λ y. ltb (key y) (key x)) xs ≡ true
      → select (λ y. ltb (key y) (key x)) xs ≡ xs
  select-below x [] h = refl
  select-below x (y ∷ ys) h =
      rw (head-true y ys h) (ap (λ zs. y ∷ zs) (select-below x ys (tail-true y ys h)))
    where
      head-true :
          (y : A) (ys : List A)
          → all (λ z. ltb (key z) (key x)) (y ∷ ys) ≡ true
          → ltb (key y) (key x) ≡ true
      head-true y ys h = ground (arith, h)

      tail-true :
          (y : A) (ys : List A)
          → all (λ z. ltb (key z) (key x)) (y ∷ ys) ≡ true
          → all (λ z. ltb (key z) (key x)) ys ≡ true
      tail-true y ys h = ground (arith, h)

  nth_key-below :
      (n k : ℕ) (xs : List A)
      → n < length xs
      → all (λ y. ltb (key y) k) xs ≡ true
      → nth_key key n xs < k
  nth_key-below n k [] h below = omega (arith, h)
  nth_key-below zero k (x ∷ xs) h below = ground (arith, below)
  nth_key-below (suc n) k (x ∷ xs) h below =
      nth_key-below n k xs (omega (arith, h)) (ground (arith, below))

  -- The first rows of a falling list and the rows below the last of them are the whole list.
  take-below :
      (n : ℕ) (xs : List A)
      → is_descending xs ≡ true
      → suc n < length xs
      → take (suc n) xs ++ select (λ x. ltb (key x) (nth_key key n xs)) xs ≡ xs
  take-below n [] h long = refl
  take-below zero (x ∷ xs) h long = ground (arith, select-below x xs, h)
  take-below (suc n) (x ∷ xs) h long =
      ground (arith, h, take-below n xs, nth_key-below n (key x) xs, long)

  take-take : (n : ℕ) (xs : List A) → take n (take (n + 1) xs) ≡ take n xs
  take-take zero xs = refl
  take-take (suc n) [] = ground arith
  take-take (suc n) (x ∷ xs) = ground (arith, take-take n xs)

  length-take : (n : ℕ) (xs : List A) → n < length xs → length (take (n + 1) xs) ≡ n + 1
  length-take n [] h = omega (arith, h)
  length-take zero (x ∷ xs) h = ground arith
  length-take (suc n) (x ∷ xs) h = ground (arith, length-take n xs, h)

  nth_key-take : (n k : ℕ) (xs : List A) → n < k → nth_key key n (take k xs) ≡ nth_key key n xs
  nth_key-take n zero xs h = omega (arith, h)
  nth_key-take n (suc k) [] h = refl
  nth_key-take zero (suc k) (x ∷ xs) h = refl
  nth_key-take (suc n) (suc k) (x ∷ xs) h = nth_key-take n k xs (omega (arith, h))

  all-select : (p q : A → Bool) (xs : List A) → all p xs ≡ true → all p (select q xs) ≡ true
  all-select p q [] h = refl
  all-select p q (x ∷ xs) h = ground (arith, h, all-select p q xs)

  select-descending :
      (q : A → Bool) (xs : List A) → is_descending xs ≡ true → is_descending (select q xs) ≡ true
  select-descending q [] h = refl
  select-descending q (x ∷ xs) h =
      ground (arith, h, select-descending q xs, all-select (λ y. ltb (key y) (key x)) q xs)

  -- a later cursor narrows the query
  select-narrow :
      (q : A → Bool) (old new : ℕ) (xs : List A)
      → is_before old new ≡ true
      → 0 < new
      → select (λ x. ltb (key x) new) (select (λ x. is_before old (key x) && q x) xs)
        ≡ select (λ x. is_before new (key x) && q x) xs
  select-narrow q old new [] h positive = refl
  select-narrow q old new (x ∷ xs) h positive =
      ground (arith, h, positive, select-narrow q old new xs)

  nth_key-all :
      (p : ℕ → Bool) (n : ℕ) (xs : List A)
      → n < length xs
      → all (λ x. p (key x)) xs ≡ true
      → p (nth_key key n xs) ≡ true
  nth_key-all p n [] h held = ground (arith, h)
  nth_key-all p zero (x ∷ xs) h held = ground (arith, held)
  nth_key-all p (suc n) (x ∷ xs) h held =
      nth_key-all p n xs (omega (arith, h)) (ground (arith, held))

  all-selected : (p q : A → Bool) (xs : List A) → all p (select (λ x. p x && q x) xs) ≡ true
  all-selected p q [] = refl
  all-selected p q (x ∷ xs) = ground (arith, all-selected p q xs)

module _ (codec : Codec) (opts : EventListOptions) (cursor n : ℕ) (db : Db) where
  -- In a journal whose keys rise, the rows of a page that is not the last one, followed by the rows
  -- before the last row of that page, which its next cursor names, are all the rows that the query
  -- had left: no row is missed or repeated.
  pub page_of-next :
      is_descending (λ (row : JournalRow). row.journal_id) (reversed db.journal []) ≡ true
      → all (λ (row : JournalRow). ltb 0 row.journal_id) (events_before opts cursor db) ≡ true
      → suc n < length (events_before opts cursor db)
      → ((page_of codec (λ row. row.journal_id) (suc n) (events_before opts cursor db)).items
            ++ events_before opts
                (nth_key (λ row. row.journal_id) n (events_before opts cursor db))
                db
          ≡ events_before opts cursor db)
        × ((page_of codec
              (λ row. row.journal_id)
              (suc n)
              (events_before opts cursor db)).next_cursor
            ≡ codec.encode (
                codec.format_int
                  (nth_key (λ row. row.journal_id) n (events_before opts cursor db))))
  unfolding page_of
  page_of-next descending positive long =
      let key : JournalRow → ℕ = λ row. row.journal_id in
      let xs = events_before opts cursor db in
      let last = nth_key key n xs in
      let short : n < length xs = omega (arith, long) in
      let before : is_before cursor last ≡ true = nth_key-all key (is_before cursor) n xs short (
        all-selected key (λ row. is_before cursor (key row)) (event_selected opts)
          (reversed db.journal [])) in
      let above : ltb 0 last ≡ true = nth_key-all key (λ k. ltb 0 k) n xs short positive in
      let rest : select (λ row. ltb (key row) last) xs ≡ events_before opts last db =
        select-narrow key (event_selected opts) cursor last (reversed db.journal []) before
          (ground (arith, above)) in
      let whole : take (suc n) xs ++ select (λ row. ltb (key row) last) xs ≡ xs =
        take-below key n xs
          (select-descending key (λ row. is_before cursor (key row) && event_selected opts row)
            (reversed db.journal []) descending)
          long in
      let less : suc n - 1 ≡ n = omega arith in
      let fetched : length (take (suc n + 1) xs) ≡ suc n + 1 = length-take key (suc n) xs long in
      let full : ltb (suc n) (length (take (suc n + 1) xs)) ≡ true = rw fetched (ground arith) in
      rw full (
        rw (take-take key (suc n) xs) (ap (λ ys. take (suc n) xs ++ ys) (sym rest) ∙ whole),
        ap (λ k. codec.encode (codec.format_int k))
            (ap (λ j. nth_key key j (take (suc n + 1) xs)) less
              ∙ nth_key-take key n (suc n + 1) xs (omega arith)),
      )
