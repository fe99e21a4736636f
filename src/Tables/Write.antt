-- ===== src/Tables/Write.antt =====
-- A transaction that fails leaves the tables as they were.
use lazarus.Base.{arith, ◌≡◌, refl, inl, inr}
use lazarus.Errors.{Result, ok, err}
use lazarus.Errors.Chains.{result_outcome}
use lazarus.Tables.{Db, write}

module _ {ℓ κ} {A : Type ℓ} (P : Db → Type κ) (db : Db) (fn : Db → Result (A × Db)) where
  -- what holds before a transaction and after every commit of it holds after it
  pub write-keeps : P db → ((a : A) (db' : Db) → fn db ≡ ok (a, db') → P db') → P (write db fn).1
  unfolding write
  write-keeps before committed = go (fn db) refl
    where
      go :
          (r : Result (A × Db))
          → fn db ≡ r
          → P (elim r as (λ _. Result A × Db) [ ok (a, db') ↦ (ok a, db') | err e ↦ (err e, db) ]).1
      go (ok (a, db')) h = committed a db' h
      go (err e) h = before

module _ {ℓ} {A : Type ℓ} (db : Db) (fn : Db → Result (A × Db)) where
  -- a transaction that succeeds has committed the tables of its body
  pub write-ok : {a : A} → (write db fn).0 ≡ ok a → fn db ≡ ok (a, (write db fn).1)
  unfolding write
  write-ok {a} h = elim (result_outcome (fn db)) [
    | inl ((b, db'), done) ↦ ground (arith, done, h)
    | inr (e, failed) ↦ ground (arith, failed, h)
  ]

  -- a body that succeeds is committed
  pub write-commits : {a : A} {db' : Db} → fn db ≡ ok (a, db') → write db fn ≡ (ok a, db')
  unfolding write
  write-commits h = rw (h, write) refl
