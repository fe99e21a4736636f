-- ===== src/Mutations/Target.antt =====
-- `TransitionTarget` of internal/store/mutations.go.
pub mod Accepted
pub mod Guarded
use lazarus.Base.{ℕ, String, Bool, not, ◌&&◌, ◌||◌, ◌==◌, eqb, if◌then◌else◌, Option, none, some}
use lazarus.Text.{valid_id, trim_space}
use lazarus.Json.{Raw}
use lazarus.Errors.{
  StoreError, not_found, forbidden, invalid, conflict_base, version_conflict_base, conflict_error,
  Result, ok, err, guard, refuse, ◌>>=◌, ◌>>◌,
}
use lazarus.Model.{
  Time, next_version, AuditContext, StateChange, Maintenance, Target, TargetTransitionResult, Event,
}
use lazarus.Lifecycle.{
  is_maintenance_terminal, valid_target_state, valid_target_transition, target_phase_allowed,
}
use lazarus.Precondition.{VersionPrecondition, require}
use lazarus.Tables.{Db, find_maintenance, find_target, update_maintenance, update_target, write}
use lazarus.Journal.{append_event, event_payload, audit_values}
use lazarus.Payloads.{valid_justification}

abbrev pub is_admin : String → Bool
is_admin role = role == "admin"

-- `sql.ErrNoRows` becomes ErrNotFound
abbrev pub or_not_found {ℓ} : {A : Type ℓ} → Option A → Result A
or_not_found none = err not_found
or_not_found (some a) = ok a

-- a conflict about the target, in its state and version
abbrev target_conflict : String → Target → String → StoreError
target_conflict reason t requested =
    conflict_error conflict_base reason "target" t.id 0 t.version t.state requested

-- Skipping needs an administrator and a reason; a degraded or unknown target only skips.
unfoldable pub target_event_type : Target → StateChange → AuditContext → Result String
unfolding conflict_error
target_event_type t change audit =
    if change.state == "skipped"
    then (do
      guard (is_admin audit.role) forbidden
      valid_justification change.justification
      ok "target.skipped")
    else if t.original_state == "degraded" || t.original_state == "unknown"
    then err (target_conflict "unresolved_target_requires_skip" t change.state)
    else ok "target.transitioned"

-- the checks of the target's state against the table, its original state and the phase
unfoldable pub target_change_allowed : Maintenance → Target → StateChange → Result (Unit {0})
unfolding conflict_error
target_change_allowed m t change = do
  refuse (t.state == "healthy" || t.state == "skipped")
      (target_conflict "target_terminal" t change.state)
  guard (valid_target_transition t.state change.state) invalid
  refuse (t.original_state == "stopped" && not (change.state == "skipped"))
      (target_conflict "originally_stopped_target" t change.state)
  refuse (not (change.state == "skipped") && not (target_phase_allowed m.state change.state))
      (target_conflict "target_phase_mismatch" t change.state)

abbrev pub target_event : String → Time → Maintenance → Target → String → AuditContext → Raw → Event
target_event type now m t to audit payload = record {
  id = 0;
  type = type;
  occurred_at = now;
  request_id = audit.request_id;
  actor = audit.actor;
  role = audit.role;
  resource_type = "target";
  resource_id = t.id;
  maintenance_id = m.id;
  target_id = t.id;
  from_state = t.state;
  to_state = to;
  from_version = t.version;
  to_version = next_version t.version;
  aggregate_version = next_version m.version;
  payload = payload;
}

-- the two updates, the event and the result
unfoldable pub record_target_change :
    String
    → Time
    → Maintenance
    → Target
    → String
    → AuditContext
    → Raw
    → Db
    → Result (TargetTransitionResult × Db)
unfolding conflict_error audit_values
record_target_change type now m t to audit payload db = do
  updated ← update_target m.id t.id t.version to (next_version t.version) now db
  guard (eqb updated.0 1) (
      conflict_error version_conflict_base "target_version_changed" "target" t.id t.version
        t.version t.state to)
  parent ← update_maintenance m.id m.version m.state (next_version m.version) now updated.1
  guard (eqb parent.0 1) (
      conflict_error version_conflict_base "maintenance_version_changed" "maintenance" m.id
        m.version m.version m.state to)
  written ← append_event (target_event type now m t to (audit_values audit) payload) parent.1
  ok (
    record {
      target = record t { state = to; version = next_version t.version; updated_at = now };
      maintenance_version = next_version m.version;
    },
    written,
  )

-- the body of the transaction
unfoldable pub transition_target_tx :
    Time
    → String
    → String
    → StateChange
    → VersionPrecondition
    → AuditContext
    → Raw
    → Db
    → Result (TargetTransitionResult × Db)
unfolding conflict_error
transition_target_tx now maintenance_id target_id change precondition audit payload db = do
  m ← or_not_found (find_maintenance maintenance_id db)
  refuse (is_maintenance_terminal m.state) (
      conflict_error conflict_base "parent_maintenance_terminal" "maintenance" maintenance_id 0
        m.version m.state change.state)
  t ← or_not_found (find_target maintenance_id target_id db)
  require precondition t.version "target" target_id t.state change.state
  type ← target_event_type t change audit
  target_change_allowed m t change
  record_target_change type now m t change.state audit payload db

-- the checks before the transaction, and the transaction
unfoldable pub checked_target_change :
    Time
    → String
    → String
    → StateChange
    → VersionPrecondition
    → AuditContext
    → Db
    → Result (TargetTransitionResult × Db)
checked_target_change now maintenance_id target_id change precondition audit db = do
  guard (valid_id maintenance_id && valid_id target_id && valid_target_state change.state) invalid
  payload ← event_payload change.detail (trim_space change.justification)
  transition_target_tx now maintenance_id target_id change precondition audit payload db

unfoldable pub transition_target :
    Time
    → String
    → String
    → StateChange
    → VersionPrecondition
    → AuditContext
    → Db
    → Result TargetTransitionResult × Db
unfolding write
transition_target now maintenance_id target_id change precondition audit db =
    write db (checked_target_change now maintenance_id target_id change precondition audit)
