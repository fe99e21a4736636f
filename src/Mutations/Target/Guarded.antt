-- ===== src/Mutations/Target/Guarded.antt =====
-- What an accepted change of a target guarantees.
use lazarus.Base.{String, ◌≡◌, inl, inr, true, false, ◌||◌, ◌==◌, some, arith}
use lazarus.Json.{Raw}
use lazarus.Errors.{ok}
use lazarus.Errors.Chains.{result_outcome}
use lazarus.Text.{trim_space}
use lazarus.Model.{Time, AuditContext, StateChange, Maintenance, Target, TargetTransitionResult}
use lazarus.Lifecycle.{is_maintenance_terminal, valid_target_transition, target_phase_allowed}
use lazarus.Precondition.{VersionPrecondition, match, require}
use lazarus.Tables.{Db, find_maintenance, find_target}
use lazarus.Journal.{event_payload}
use lazarus.Payloads.{valid_justification}
use lazarus.Mutations.Target.{
  is_admin, transition_target_tx, checked_target_change, transition_target, target_event_type,
  target_change_allowed,
}
use lazarus.Tables.Write.{write-ok}
use lazarus.Mutations.Target.Accepted.{Accepted, accepted}

-- the checks that an accepted change of a target has passed
pub record IsGuarded (mid tid : String) (change : StateChange) (precondition : VersionPrecondition)
    (audit : AuditContext) (db : Db) : Type 0 where
  pub m : Maintenance
  pub t : Target
  pub found : find_maintenance mid db ≡ some m
  pub target_found : find_target mid tid db ≡ some t
  pub alive : is_maintenance_terminal m.state ≡ false
  pub current : match precondition t.version ≡ true
  pub edge : valid_target_transition t.state change.state ≡ true
  pub skip : (change.state == "skipped") ≡ true → is_admin audit.role ≡ true
  pub justified :
      (change.state == "skipped") ≡ true → valid_justification change.justification ≡ ok tt
  pub phase : (change.state == "skipped") ≡ false → target_phase_allowed m.state change.state ≡ true
  pub restorable :
      (change.state == "skipped") ≡ false
      → (t.original_state == "stopped"
          || t.original_state == "degraded"
          || t.original_state == "unknown")
        ≡ false

module _ (now : Time) (mid tid : String) (change : StateChange) (precondition : VersionPrecondition)
    (audit : AuditContext) (db : Db) (res : TargetTransitionResult) where
  pub body :
      (db' : Db)
      → checked_target_change now mid tid change precondition audit db ≡ ok (res, db')
      → (payload : Raw) × (transition_target_tx now mid tid change precondition audit payload db
          ≡ ok (res, db'))
  unfolding checked_target_change
  body db' done =
      elim (result_outcome (event_payload change.detail (trim_space change.justification))) [
        | inl (payload, made) ↦ (payload, ground arith)
        | inr (e, refused) ↦ ground arith
      ]

  guarded :
      (payload : Raw) (db' : Db)
      → Accepted now mid tid change precondition audit payload db db' res
      → IsGuarded mid tid change precondition audit db
  unfolding target_event_type target_change_allowed require
  guarded payload db' a = record {
    m = a.m;
    t = a.t;
    found = a.found;
    target_found = a.target_found;
    alive = a.alive;
    current = ground (arith, a.matched);
    edge = ground (arith, a.allowed);
    skip = λ s. ground (arith, a.typed, s);
    justified = λ s. ground (arith, a.typed, s);
    phase = λ s. ground (arith, a.allowed, s);
    restorable = λ s. ground (arith, a.allowed, a.typed, s);
  }

  -- An accepted change of a target was made on an existing target of a maintenance that is not
  -- terminal, at an accepted version and along an edge of the table; a skip was made by an
  -- administrator with a valid justification, any other change in its phase and on a target that
  -- was running.
  pub transition_target-IsGuarded :
      (transition_target now mid tid change precondition audit db).0 ≡ ok res
      → IsGuarded mid tid change precondition audit db
  unfolding transition_target
  transition_target-IsGuarded h =
      let b =
        body _ (write-ok db (checked_target_change now mid tid change precondition audit) h) in
      guarded b.0 _ (accepted now mid tid change precondition audit b.0 db _ res b.1)
