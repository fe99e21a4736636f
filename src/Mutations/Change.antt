-- ===== src/Mutations/Change.antt =====
-- `TransitionMaintenance` of internal/store/mutations.go, with the two checks on all targets.
pub mod Barriers
pub mod Accepted
pub mod Guarded
use lazarus.Base.{
  ℕ, String, Bool, true, false, not, ◌&&◌, ◌||◌, ◌==◌, eqb, if◌then◌else◌, Option, none, some, List,
  [], ◌∷◌, length, select,
}
use lazarus.Text.{valid_id, trim_space}
use lazarus.Json.{Raw}
use lazarus.Errors.{
  StoreError, not_found, forbidden, invalid, conflict_base, version_conflict_base, conflict_error,
  Result, ok, err, guard, refuse, ◌>>=◌, ◌>>◌,
}
use lazarus.Model.{
  Time, next_version, AuditContext, StateChange, Maintenance, Target, MaintenanceAggregate, Event,
}
use lazarus.Lifecycle.{
  is_maintenance_terminal, valid_maintenance_state, valid_maintenance_transition,
  target_completion_allowed,
}
use lazarus.Precondition.{VersionPrecondition, require}
use lazarus.Tables.{
  Db, JournalRow, find_maintenance, count_captures, targets_of, list_targets, sort_by_id,
  update_maintenance, bump_targets, write,
}
use lazarus.Journal.{append_event, event_payload, audit_values, null_text}
use lazarus.Payloads.{valid_justification}
use lazarus.Mutations.Target.{is_admin, or_not_found}

-- a conflict about the maintenance, in its state and version
abbrev pub maintenance_conflict : String → Maintenance → String → StoreError
maintenance_conflict reason m requested =
    conflict_error conflict_base reason "maintenance" m.id 0 m.version m.state requested

-- A failed maintenance is reopened by an administrator with a reason, to `new` before its capture
-- and to an active phase after it; a completed or cancelled one changes no more.
unfoldable pub maintenance_event_type :
    Maintenance → StateChange → AuditContext → Db → Result String
unfolding conflict_error
maintenance_event_type m change audit db =
    if m.state == "failed"
    then (do
      guard (is_admin audit.role) forbidden
      valid_justification change.justification
      refuse (eqb (count_captures m.id db) 0 && not (change.state == "new"))
          (maintenance_conflict "uncaptured_failure_reopens_to_new" m change.state)
      refuse
          (eqb (count_captures m.id db) 1
            && (change.state == "new"
                || change.state == "completed"
                || change.state == "cancelled"))
          (maintenance_conflict "captured_failure_reopens_to_active_phase" m change.state)
      ok "maintenance.reopened")
    else if is_maintenance_terminal m.state
    then err (maintenance_conflict "maintenance_terminal" m change.state)
    else ok "maintenance.transitioned"

-- event_type='target.transitioned' and maintenance_id=?
abbrev pub exercises : String → JournalRow → Bool
exercises id row = elim row.maintenance_id [
  | none ↦ false
  | some mid ↦ mid == id && row.event_type == "target.transitioned"
]

unfoldable pub exercised : String → Db → ℕ
exercised id db = length (select (exercises id) db.journal)

-- the CASE of the query of `validateStoppedBarrier`
abbrev pub is_unresolved : Target → Bool
is_unresolved t =
    if t.original_state == "running" || t.original_state == "stopped"
    then not (t.state == "stopped" || t.state == "skipped")
    else not (t.state == "skipped")

unfoldable pub validate_stopped_barrier : String → Db → Result (Unit {0})
unfolding conflict_error
validate_stopped_barrier id db =
    guard (eqb (length (select is_unresolved (targets_of id db))) 0)
      (conflict_error conflict_base "targets_not_stopped" "maintenance" id 0 0 "stopping" "stopped")

-- the loop over the rows: the first target that is not restored stops it
unfoldable pub check_reconciled : List Target → Result (Unit {0})
unfolding conflict_error
check_reconciled [] = ok tt
check_reconciled (t ∷ ts) =
    guard (target_completion_allowed t.original_state t.state) (
      conflict_error conflict_base "target_not_reconciled" "target" t.id 0 t.version t.state
        "completed")
    >> check_reconciled ts

unfoldable pub validate_completion : String → Db → Result (Unit {0})
unfolding conflict_error
validate_completion id db = do
  guard (eqb (count_captures id db) 1) (
      conflict_error conflict_base "maintenance_has_no_capture" "maintenance" id 0 0 "" "completed")
  check_reconciled (sort_by_id (targets_of id db))
  refuse (eqb (length (targets_of id db)) 0) (
      conflict_error conflict_base "maintenance_has_no_targets" "maintenance" id 0 0 "" "completed")

-- the checks of the destination, which may rename the event
unfoldable pub maintenance_change_allowed : Maintenance → StateChange → String → Db → Result String
unfolding conflict_error
maintenance_change_allowed m change type db = do
  refuse (change.state == "captured" && not (m.state == "failed")) invalid
  guard (valid_maintenance_transition m.state change.state) invalid
  refuse (change.state == "cancelled" && m.state == "captured" && not (eqb (exercised m.id db) 0))
      (maintenance_conflict "cancel_requires_unexercised_targets" m change.state)
  if change.state == "stopped" then validate_stopped_barrier m.id db else ok tt
  if change.state == "completed" then validate_completion m.id db else ok tt
  ok (if change.state == "completed" then "maintenance.completed" else type)

abbrev pub maintenance_event : String → Time → Maintenance → String → AuditContext → Raw → Event
maintenance_event type now m to audit payload = record {
  id = 0;
  type = type;
  occurred_at = now;
  request_id = audit.request_id;
  actor = audit.actor;
  role = audit.role;
  resource_type = "maintenance";
  resource_id = m.id;
  maintenance_id = m.id;
  target_id = "";
  from_state = m.state;
  to_state = to;
  from_version = m.version;
  to_version = next_version m.version;
  aggregate_version = next_version m.version;
  payload = payload;
}

-- after a capture, a change of the maintenance makes every target's version stale
abbrev pub bump_if_captured : String → Time → Db → Db
bump_if_captured id now db = if eqb (count_captures id db) 1 then bump_targets id now db else db

-- the updates, the event and the result
unfoldable pub record_maintenance_change :
    String
    → Time
    → Maintenance
    → String
    → AuditContext
    → Raw
    → Db
    → Result (MaintenanceAggregate × Db)
unfolding conflict_error audit_values
record_maintenance_change type now m to audit payload db = do
  updated ←
      update_maintenance m.id m.version to (next_version m.version) now
        (bump_if_captured m.id now db)
  guard (eqb updated.0 1) (
      conflict_error version_conflict_base "maintenance_version_changed" "maintenance" m.id
        m.version m.version m.state to)
  written ← append_event (maintenance_event type now m to (audit_values audit) payload) updated.1
  targets ← list_targets m.id written
  ok (
    record {
      maintenance = record m { state = to; version = next_version m.version; updated_at = now };
      targets = targets;
    },
    written,
  )

unfoldable pub transition_maintenance_tx :
    Time
    → String
    → StateChange
    → VersionPrecondition
    → AuditContext
    → Raw
    → Db
    → Result (MaintenanceAggregate × Db)
transition_maintenance_tx now id change precondition audit payload db = do
  m ← or_not_found (find_maintenance id db)
  require precondition m.version "maintenance" id m.state change.state
  reopened ← maintenance_event_type m change audit db
  type ← maintenance_change_allowed m change reopened db
  record_maintenance_change type now m change.state audit payload db

-- the checks before the transaction, and the transaction
unfoldable pub checked_maintenance_change :
    Time
    → String
    → StateChange
    → VersionPrecondition
    → AuditContext
    → Db
    → Result (MaintenanceAggregate × Db)
checked_maintenance_change now id change precondition audit db = do
  guard (valid_id id && valid_maintenance_state change.state) invalid
  payload ← event_payload change.detail (trim_space change.justification)
  transition_maintenance_tx now id change precondition audit payload db

unfoldable pub transition_maintenance :
    Time
    → String
    → StateChange
    → VersionPrecondition
    → AuditContext
    → Db
    → Result MaintenanceAggregate × Db
unfolding write
transition_maintenance now id change precondition audit db =
    write db (checked_maintenance_change now id change precondition audit)
