-- ===== src/Errors.antt =====
-- The error values of internal/store/store.go, and results that may fail. The text that
-- fmt.Errorf wraps around a base error is left out; a ConflictError keeps its fields.
pub mod Chains
use lazarus.Base.{ℕ, String, Bool, true, false}

-- ConflictError.Base
pub data ConflictBase : Type 0 where
  conflict_base version_conflict_base : ConflictBase

pub record ConflictError : Type 0 where
  pub base : ConflictBase
  pub reason : String
  pub resource_type : String
  pub resource_id : String
  pub expected_version : ℕ
  pub current_version : ℕ
  pub current_state : String
  pub requested_state : String
  pub holder : String

-- `db_error` is any failure that SQLite reports (a CHECK, a trigger, a foreign key, a value that
-- does not scan), `unique_violation` the one of a primary key.
pub data StoreError : Type 0 where
  not_found precondition_required forbidden invalid corrupt db_error unique_violation : StoreError
  conflict : ConflictError → StoreError

unfoldable pub conflict_error :
    ConflictBase → String → String → String → ℕ → ℕ → String → String → StoreError
conflict_error base reason resource_type resource_id expected current current_state requested =
    conflict (record {
      base = base;
      reason = reason;
      resource_type = resource_type;
      resource_id = resource_id;
      expected_version = expected;
      current_version = current;
      current_state = current_state;
      requested_state = requested;
      holder = "";
    })

pub data Result {ℓ} (A : Type ℓ) : Type ℓ where
  ok : A → Result A
  err : StoreError → Result A

-- `if err != nil { return err }` before the rest
infixl 5 ◌>>◌ ◌>>=◌
abbrev pub ◌>>◌ {ℓ} : {A : Type ℓ} → Result (Unit {0}) → Result A → Result A
err failure >> rest = err failure
ok _ >> rest = rest

-- `if !b { return e }`
abbrev pub guard : Bool → StoreError → Result (Unit {0})
guard false e = err e
guard true e = ok tt

-- the same for a step with a value
abbrev pub ◌>>=◌ {κ ℓ} : {V : Type κ} {A : Type ℓ} → Result V → (V → Result A) → Result A
err failure >>= rest = err failure
ok value >>= rest = rest value

-- `if b { return e }`
abbrev pub refuse : Bool → StoreError → Result (Unit {0})
refuse true e = err e
refuse false e = ok tt
