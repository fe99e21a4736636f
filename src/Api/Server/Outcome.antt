-- ===== src/Api/Server/Outcome.antt =====
-- What a handler does to the tables: nothing, or one operation of the store that succeeds.
use lazarus.Base.{
  ◌*◌, String, ◌≡◌, refl, ap, ◌∙◌, ◌⊎◌, inl, inr, Bool, true, false, not, ◌&&◌, ◌==◌, Option, none,
  some, List, leb, if◌then◌else◌,
}
use lazarus.Json.{is_empty}
use lazarus.Text.{trim_space}
use lazarus.Env.{Env}
use lazarus.Errors.{Result, ok}
use lazarus.Errors.Chains.{result_outcome}
use lazarus.Model.{AuditContext, CaptureResult}
use lazarus.Precondition.{VersionPrecondition}
use lazarus.Tables.{Db, write}
use lazarus.Mutations.Create.{create_maintenance, checked_creation}
use lazarus.Mutations.Capture.{capture_maintenance, checked_capture}
use lazarus.Mutations.Change.{transition_maintenance, checked_maintenance_change}
use lazarus.Mutations.Target.{transition_target, checked_target_change}
use lazarus.Mutations.Observe.{add_observation, checked_observation}
use lazarus.Guarantees.Commands.{
  Command, create_call, capture_call, maintenance_call, target_call, observation_call,
  backup_created_call, backup_download_call, execute,
}
use lazarus.Guarantees.Global.{is_sound}
use lazarus.Api.IfMatch.{IfMatch, accepted, rejected, version_precondition}
use lazarus.Api.Request.{
  Body, StateChangeRequest, decode_json, decode_json_object, set_maintenance_field,
  set_change_field, no_maintenance, no_change, is_json_object, store_value,
}
use lazarus.Api.Response.{nothing, Response}
use lazarus.Api.Handlers.{
  World, answer, answer_with, with_decoded, with_if_match, create_requested, created_answer,
  captured_answer, change_answer, plain, target_answer, given_capture, requested_row,
  handle_create_maintenance, handle_capture_maintenance, handle_transition_maintenance,
  handle_transition_target, handle_add_target_observation, with_change,
}

-- who a call is recorded for
abbrev pub audit_of : Command → AuditContext
audit_of (create_call now m audit) = audit
audit_of (capture_call stamp now id capture audit) = audit
audit_of (maintenance_call now id change precondition audit) = audit
audit_of (target_call now mid id change precondition audit) = audit
audit_of (observation_call now mid id payload precondition audit) = audit
audit_of (backup_created_call m audit) = audit
audit_of (backup_download_call now m artifact audit) = audit

-- the answer is not an error
abbrev pub succeeded : Response → Bool
succeeded r = not (leb 400 r.status)

pub record IsExecuted (env : Env) (audit : AuditContext) (db : Db) (p : Response × Db)
    : Type 0 where
  pub command : Command
  pub sound : is_sound command ≡ true
  pub audited : audit_of command ≡ audit
  pub accepted : succeeded p.0 ≡ true
  pub executed : p.1 ≡ execute env command db

-- the outcome of a handler
abbrev pub IsOutcome : Env → AuditContext → Db → Response × Db → Type 0
IsOutcome env audit db p = (p.1 ≡ db) ⊎ IsExecuted env audit db p

-- a transaction fails and changes nothing, or succeeds
write-cases :
    {A : Type 0} (db : Db) (fn : Db → Result (A × Db))
    → ((write db fn).1 ≡ db) ⊎ ((a : A) × ((write db fn).0 ≡ ok a))
unfolding write
write-cases db fn = elim (result_outcome (fn db)) [
  | inl ((a, db'), done) ↦ inr (a, rw (done, write) refl)
  | inr (e, failed) ↦ inl (rw (failed, write) refl)
]

-- the answer to an operation that is a transaction
answer_with-IsOutcome :
    {A : Type 0} (env : Env) (audit : AuditContext) (db : Db) (c : Command) (f : A → Response)
    (fn : Db → Result (A × Db))
    → ((a : A) → succeeded (f a) ≡ true)
    → is_sound c ≡ true
    → audit_of c ≡ audit
    → (write db fn).1 ≡ execute env c db
    → IsOutcome env audit db (answer_with f (write db fn))
answer_with-IsOutcome env audit db c f fn good sound audited executed = elim (write-cases db fn) [
  | inl same ↦ inl same
  | inr (a, done) ↦ inr (record {
    command = c;
    sound = sound;
    audited = audited;
    accepted = ap (λ x. succeeded (answer f x)) done ∙ good a;
    executed = executed;
  })
]

captured_succeeds : (c : CaptureResult) → succeeded (captured_answer c) ≡ true
captured_succeeds c = go c.created
  where
    go : (b : Bool) → not (leb 400 (if b then 201 else 200)) ≡ true
    go true = refl
    go false = refl

-- the branches of a handler
module _ (env : Env) (audit : AuditContext) (db : Db) where
  if-IsOutcome :
      (b : Bool) {p q : Response × Db}
      → IsOutcome env audit db p
      → IsOutcome env audit db q
      → IsOutcome env audit db (if b then p else q)
  if-IsOutcome true one other = one
  if-IsOutcome false one other = other

  with_decoded-IsOutcome :
      {A : Type 0} (o : Option A) (next : A → Db → Response × Db)
      → ((a : A) → IsOutcome env audit db (next a db))
      → IsOutcome env audit db (with_decoded o next db)
  with_decoded-IsOutcome none next each = inl refl
  with_decoded-IsOutcome (some a) next each = each a

  with_if_match-IsOutcome :
      (m : IfMatch) (next : VersionPrecondition → Db → Response × Db)
      → ((p : VersionPrecondition) → IsOutcome env audit db (next p db))
      → IsOutcome env audit db (with_if_match m next db)
  with_if_match-IsOutcome (rejected code) next each = inl refl
  with_if_match-IsOutcome (accepted p) next each = each p

  with_change-IsOutcome :
      (if_match : List String)
      (change : StateChangeRequest → VersionPrecondition → Db → Response × Db)
      → ((r : StateChangeRequest) (p : VersionPrecondition)
          → IsOutcome env audit db (change r p db))
      → (r : StateChangeRequest) → IsOutcome env audit db (with_change if_match change r db)
  unfolding with_change
  with_change-IsOutcome if_match change each r =
      if-IsOutcome (not (is_empty r.detail) && not (is_json_object r.detail)) (inl refl)
        (with_if_match-IsOutcome (version_precondition if_match) (change r) (each r))

module _ (w : World) (audit : AuditContext) (db : Db) where
  pub create-IsOutcome :
      (body : Body) → IsOutcome w.env audit db (handle_create_maintenance w audit body db)
  unfolding handle_create_maintenance create_requested execute create_maintenance
  create-IsOutcome body =
      with_decoded-IsOutcome w.env audit db (decode_json set_maintenance_field no_maintenance body)
        (create_requested w audit)
        λ r. if-IsOutcome w.env audit db (trim_space r.maintenance_id == "") (inl refl) (
          if-IsOutcome w.env audit db (not (is_empty r.metadata) && not (is_json_object r.metadata))
            (inl refl)
            (answer_with-IsOutcome w.env audit db (create_call w.now (requested_row r) audit)
              created_answer (checked_creation w.env w.now (requested_row r) audit) (λ m. refl) refl
              refl refl))

  pub capture-IsOutcome :
      (id : String) (body : Body)
      → IsOutcome w.env audit db (handle_capture_maintenance w audit id body db)
  unfolding handle_capture_maintenance execute capture_maintenance
  capture-IsOutcome id body =
      with_decoded-IsOutcome w.env audit db (decode_json_object (2 * 1024 * 1024) body) _ λ payload.
        answer_with-IsOutcome w.env audit db
          (capture_call w.stamp w.now id (given_capture payload) audit) captured_answer
          (checked_capture w.env w.stamp w.now id (given_capture payload) audit) captured_succeeds
          refl refl refl

  pub transition_maintenance-IsOutcome :
      (id : String) (body : Body) (if_match : List String)
      → IsOutcome w.env audit db (handle_transition_maintenance w audit id body if_match db)
  unfolding handle_transition_maintenance execute transition_maintenance
  transition_maintenance-IsOutcome id body if_match =
      with_decoded-IsOutcome w.env audit db (decode_json set_change_field no_change body) _ (
        with_change-IsOutcome w.env audit db if_match _ λ r p.
          answer_with-IsOutcome w.env audit db (maintenance_call w.now id (store_value r) p audit)
            change_answer (checked_maintenance_change w.now id (store_value r) p audit) (λ a. refl)
            refl refl refl)

  pub transition_target-IsOutcome :
      (mid tid : String) (body : Body) (if_match : List String)
      → IsOutcome w.env audit db (handle_transition_target w audit mid tid body if_match db)
  unfolding handle_transition_target execute transition_target
  transition_target-IsOutcome mid tid body if_match =
      with_decoded-IsOutcome w.env audit db (decode_json set_change_field no_change body) _ (
        with_change-IsOutcome w.env audit db if_match _ λ r p.
          answer_with-IsOutcome w.env audit db (target_call w.now mid tid (store_value r) p audit)
            target_answer (checked_target_change w.now mid tid (store_value r) p audit) (λ a. refl)
            refl refl refl)

  pub add_observation-IsOutcome :
      (mid tid : String) (body : Body) (if_match : List String)
      → IsOutcome w.env audit db (handle_add_target_observation w audit mid tid body if_match db)
  unfolding handle_add_target_observation execute add_observation
  add_observation-IsOutcome mid tid body if_match =
      with_decoded-IsOutcome w.env audit db (decode_json_object (64 * 1024) body) _ λ payload.
        with_if_match-IsOutcome w.env audit db (version_precondition if_match) _ λ p.
          answer_with-IsOutcome w.env audit db (observation_call w.now mid tid payload p audit)
            (λ _. plain 204 nothing) (checked_observation w.now mid tid payload p audit) (λ a. refl)
            refl refl refl
