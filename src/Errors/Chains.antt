-- ===== src/Errors/Chains.antt =====
-- Case distinctions on the result of a step.
use lazarus.Base.{◌≡◌, refl, ◌⊎◌, inl, inr}
use lazarus.Errors.{StoreError, Result, ok, err}

module _ {ℓ} {A : Type ℓ} where
  abbrev pub Committed : Result A → Type ℓ
  Committed step = (value : A) × (step ≡ ok value)

  abbrev pub Refused : Result A → Type ℓ
  Refused step = (error : StoreError) × (step ≡ err error)

  -- a step has one of the two outcomes, whose equation a proof goes on with
  pub result_outcome : (step : Result A) → Committed step ⊎ Refused step
  result_outcome (err error) = inr (error, refl)
  result_outcome (ok value) = inl (value, refl)
