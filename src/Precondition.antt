-- ===== src/Precondition.antt =====
-- VersionPrecondition of internal/store/store.go: the versions that an If-Match header accepts.
use lazarus.Base.{ℕ, String, Bool, true, false, not, ◌&&◌, List, [], ◌∷◌, any, eqb, if◌then◌else◌}
use Prim.Native.String.{◌++◌}
use lazarus.Errors.{precondition_required, version_conflict_base, conflict_error, Result, ok, err}

pub record VersionPrecondition : Type 0 where
  pub any_version : Bool
  pub versions : List ℕ

unfoldable pub match : VersionPrecondition → ℕ → Bool
match p version =
    if p.any_version then true else any (λ candidate. eqb candidate version) p.versions

abbrev is_nil : List ℕ → Bool
is_nil [] = true
is_nil (_ ∷ _) = false

-- the reason is `resourceType+"_version_changed"`
unfoldable pub require :
    VersionPrecondition → ℕ → String → String → String → String → Result (Unit {0})
unfolding match conflict_error
require p version resource_type resource_id state requested =
    if not p.any_version && is_nil p.versions
    then err precondition_required
    else if match p version
    then ok tt
    else err (
        conflict_error version_conflict_base (resource_type ++ "_version_changed") resource_type
          resource_id 0 version state requested)
