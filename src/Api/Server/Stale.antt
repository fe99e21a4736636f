-- ===== src/Api/Server/Stale.antt =====
-- A change of a target under an entity tag that is not the current one.
use lazarus.Base.{
  inl, inr, Bool-cases, ℕ, String, ◌≡◌, refl, sym, ap, ◌∙◌, Bool, true, false, not, ◌&&◌, Option,
  none, some, [], ◌∷◌, arith, leb, if◌then◌else◌,
}
use lazarus.Json.{is_empty}
use lazarus.Errors.{
  StoreError, not_found, precondition_required, forbidden, invalid, corrupt, db_error,
  unique_violation, conflict, ConflictBase, conflict_base, version_conflict_base, Result, ok, err,
}
use lazarus.Model.{AuditContext, Target, is_positive}
use lazarus.Precondition.{VersionPrecondition, match}
use lazarus.Tables.{Db, find_target}
use lazarus.Mutations.Target.{transition_target}
use lazarus.Mutations.Target.Guarded.{transition_target-IsGuarded}
use lazarus.Api.IfMatch.{IfMatch, accepted, version_etag, version_precondition}
use lazarus.Api.IfMatch.RoundTrip.{version_precondition-version_etag}
use lazarus.Api.Request.{
  Body, StateChangeRequest, decode_json, set_change_field, no_change, is_json_object, store_value,
}
use lazarus.Api.Response.{Response, write_store_error, store_error_code, write_error}
use lazarus.Api.Handlers.{
  World, answer, answer_with, with_decoded, with_if_match, with_change, target_answer,
  handle_transition_target,
}
use lazarus.Api.Server.Outcome.{succeeded, transition_target-IsOutcome}

-- the target is there, at the version
pub record HasVersion (mid tid : String) (n : ℕ) (db : Db) : Type 0 where
  pub t : Target
  pub found : find_target mid tid db ≡ some t
  pub version : t.version ≡ n

write_store_error-fails : (e : StoreError) → succeeded (write_store_error e) ≡ false
unfolding write_store_error store_error_code
write_store_error-fails not_found = refl
write_store_error-fails precondition_required = refl
write_store_error-fails forbidden = refl
write_store_error-fails invalid = refl
write_store_error-fails corrupt = refl
write_store_error-fails db_error = refl
write_store_error-fails unique_violation = refl
write_store_error-fails (conflict c) = by_base c.base
  where
    by_base :
        (b : ConflictBase)
        → not (
            leb 400
              (elim b as (λ _. String × ℕ) [
                | version_conflict_base ↦ ("version_conflict", 412)
                | conflict_base ↦ ("conflict", 409)
              ]).1)
          ≡ false
    by_base version_conflict_base = refl
    by_base conflict_base = refl

answer-ok :
    {A : Type 0} (f : A → Response) (r : Result A)
    → succeeded (answer f r) ≡ true
    → (a : A) × (r ≡ ok a)
answer-ok f (ok a) h = (a, refl)
answer-ok f (err e) h = ground (arith, h, write_store_error-fails e)

module _ (w : World) (audit : AuditContext) (mid tid : String) (n : ℕ) (db : Db) where
  abbrev exactly : VersionPrecondition
  exactly = record { any_version = false; versions = n ∷ [] }

  changed :
      (r : StateChangeRequest)
      → succeeded
          (answer_with target_answer
            (transition_target w.now mid tid (store_value r) exactly audit db)).0
        ≡ true
      → HasVersion mid tid n db
  unfolding match
  changed r h =
      let (res, done) =
        answer-ok target_answer (transition_target w.now mid tid (store_value r) exactly audit db).0
          h in
      let guarded =
        transition_target-IsGuarded w.now mid tid (store_value r) exactly audit db res done in
      record {
        t = guarded.t;
        found = guarded.target_found;
        version = ground (arith, guarded.current);
      }

  -- the handler behind the checks of its body and its header
  abbrev next : StateChangeRequest → VersionPrecondition → Db → Response × Db
  next r precondition before =
      answer_with target_answer
        (transition_target w.now mid tid (store_value r) precondition audit before)

  met :
      (m : IfMatch) (r : StateChangeRequest)
      → m ≡ accepted exactly
      → succeeded (with_if_match m (next r) db).0 ≡ true
      → HasVersion mid tid n db
  met m r same h = changed r (ap (λ x. succeeded (with_if_match x (next r) db).0) (sym same) ∙ h)

  checked :
      (b : Bool) (m : IfMatch) (r : StateChangeRequest)
      → m ≡ accepted exactly
      → succeeded
          (if b
            then (write_error 400 "detail_must_be_object", db)
            else with_if_match m (next r) db).0
        ≡ true
      → HasVersion mid tid n db
  unfolding write_error
  checked true m r same h = ground (arith, h)
  checked false m r same h = met m r same h

  decoded :
      (o : Option StateChangeRequest)
      → is_positive n ≡ true
      → succeeded (with_decoded o (with_change (version_etag n ∷ []) next) db).0 ≡ true
      → HasVersion mid tid n db
  unfolding with_change write_error
  decoded none positive h = ground (arith, h)
  decoded (some r) positive h =
      checked (not (is_empty r.detail) && not (is_json_object r.detail))
        (version_precondition (version_etag n ∷ [])) r
        (version_precondition-version_etag n positive) h

  -- A change of a target that is sent with the entity tag of a version and answered without an error
  -- finds the target at that very version.
  handle_transition_target-current :
      (body : Body)
      → is_positive n ≡ true
      → succeeded (handle_transition_target w audit mid tid body (version_etag n ∷ []) db).0 ≡ true
      → HasVersion mid tid n db
  unfolding handle_transition_target
  handle_transition_target-current body positive h =
      decoded (decode_json set_change_field no_change body) positive h

  -- A change of a target that is sent with the entity tag of a version that the target does not have
  -- is answered with an error and leaves all tables as they are.
  pub handle_transition_target-stale :
      (body : Body)
      → is_positive n ≡ true
      → ¬ HasVersion mid tid n db
      → (succeeded (handle_transition_target w audit mid tid body (version_etag n ∷ []) db).0
          ≡ false)
        × ((handle_transition_target w audit mid tid body (version_etag n ∷ []) db).1 ≡ db)
  handle_transition_target-stale body positive stale =
      let p = handle_transition_target w audit mid tid body (version_etag n ∷ []) db in
      let failed : succeeded p.0 ≡ false = elim (Bool-cases (succeeded p.0)) [
        | inl good ↦ absurd (stale (handle_transition_target-current body positive good))
        | inr bad ↦ bad
      ] in
      let kept : p.1 ≡ db =
        elim (transition_target-IsOutcome w audit db mid tid body (version_etag n ∷ [])) [
          | inl same ↦ same
          | inr done ↦ absurd (ground (arith, failed, done.accepted))
        ] in
      (failed, kept)
