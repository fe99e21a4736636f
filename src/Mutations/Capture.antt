-- ===== src/Mutations/Capture.antt =====
-- `CaptureMaintenance` of internal/store/mutations.go.
pub mod Parse
pub mod Accepted
use lazarus.Base.{
  ℕ, suc, String, Bool, true, false, not, ◌&&◌, ◌==◌, eqb, if◌then◌else◌, Option, none, some, List,
  [], ◌∷◌, length,
}
use lazarus.Text.{valid_id}
use lazarus.Json.{Json, Raw, obj, str, num, field, end, print, raw_eq}
use lazarus.Env.{Env}
use lazarus.Canonical.{canonical_json_object}
use lazarus.Errors.{
  StoreError, invalid, conflict, conflict_base, version_conflict_base, conflict_error, Result, ok,
  err, guard, refuse, ◌>>=◌, ◌>>◌,
}
use lazarus.Model.{
  Time, Moment, read_back, is_zero, next_version, AuditContext, Capture, CaptureResult, Maintenance,
  Target, Event,
}
use lazarus.Tables.{
  Db, find_maintenance, find_capture, lock_holder, insert_capture, insert_target,
  update_maintenance, write,
}
use lazarus.Journal.{append_event, audit_values}
use lazarus.Mutations.Target.{or_not_found}
use lazarus.Mutations.Capture.Parse.{CaptureTarget, parse_capture_targets}

-- The first lock that a maintenance still open holds stops the capture.
unfoldable pub check_locks : List CaptureTarget → Db → Result (Unit {0})
check_locks [] db = ok tt
check_locks (target ∷ rest) db =
    let further = check_locks rest db in
    elim (lock_holder target.lock_key db) [
      | none ↦ further
      | some owner ↦ err (
          conflict (record {
            base = conflict_base;
            reason = "lock_in_use";
            resource_type = "lock";
            resource_id = target.lock_key;
            expected_version = 0;
            current_version = 0;
            current_state = "";
            requested_state = "";
            holder = owner.maintenance_id;
          }))
    ]

-- a target that was stopped before the work starts as stopped
abbrev pub initial_state : String → String
initial_state original = if original == "stopped" then "stopped" else "captured"

-- `observed` as it is formatted, and read again by scanTarget
abbrev pub read_back_opt : Option Moment → Option Time
read_back_opt none = none
read_back_opt (some moment) = some (read_back moment)

abbrev pub captured_target : String → Time → CaptureTarget → Target
captured_target maintenance_id stamp input = record {
  id = input.target_id;
  maintenance_id = maintenance_id;
  lock_key = input.lock_key;
  state = initial_state input.original_state;
  original_state = input.original_state;
  kind = input.kind;
  host = input.host;
  observed_at = read_back_opt input.observed_at;
  metadata = input.metadata;
  version = 1;
  created_at = stamp;
  updated_at = stamp;
}

unfoldable pub insert_targets : String → Time → List CaptureTarget → Db → Result Db
insert_targets maintenance_id stamp [] db = ok db
insert_targets maintenance_id stamp (input ∷ rest) db = do
  inserted ← insert_target (captured_target maintenance_id stamp input) db
  insert_targets maintenance_id stamp rest inserted

-- json.Marshal of a map, its keys in order
unfoldable pub capture_detail : Capture → ℕ → Raw
unfolding print
capture_detail capture count =
    print (obj (field "sha256" (str capture.sha256) (field "targets" (num count) end)))

abbrev pub captured_event : Time → Maintenance → Capture → ℕ → AuditContext → Event
captured_event now m capture count audit = record {
  id = 0;
  type = "maintenance.captured";
  occurred_at = now;
  request_id = audit.request_id;
  actor = audit.actor;
  role = audit.role;
  resource_type = "maintenance";
  resource_id = m.id;
  maintenance_id = m.id;
  target_id = "";
  from_state = "new";
  to_state = "captured";
  from_version = m.version;
  to_version = next_version m.version;
  aggregate_version = next_version m.version;
  payload = capture_detail capture count;
}

-- the writes of a first capture
unfoldable pub record_capture :
    Time
    → Maintenance
    → Capture
    → List CaptureTarget
    → AuditContext
    → Db
    → Result (CaptureResult × Db)
unfolding conflict_error audit_values capture_detail
record_capture now m capture targets audit db = do
  saved ← insert_capture capture db
  filled ← insert_targets m.id capture.captured_at targets saved
  updated ← update_maintenance m.id m.version "captured" (next_version m.version) now filled
  guard (eqb updated.0 1) (
      conflict_error version_conflict_base "maintenance_version_changed" "maintenance" m.id
        m.version m.version m.state "captured")
  written ←
      append_event (captured_event now m capture (length targets) (audit_values audit)) updated.1
  ok (record { capture = capture; created = true }, written)

-- A capture that is there already is returned if it is the same, and never replaced.
unfoldable pub capture_maintenance_tx :
    Time → String → Capture → List CaptureTarget → AuditContext → Db → Result (CaptureResult × Db)
unfolding conflict_error find_capture check_locks
capture_maintenance_tx now id capture targets audit db = do
  m ← or_not_found (find_maintenance id db)
  elim (find_capture id db) [
    | some existing ↦
        if existing.sha256 == capture.sha256 && raw_eq existing.payload capture.payload
        then ok (record { capture = existing; created = false }, db)
        else err (
            conflict_error conflict_base "immutable_capture_mismatch" "capture" id 0 0 m.state
              "captured")
    | none ↦ (do
      guard (m.state == "new") (
          conflict_error conflict_base "capture_requires_new_maintenance" "maintenance" id 0
            m.version m.state "captured")
      check_locks targets db
      record_capture now m capture targets audit db)
  ]

-- the capture to save
abbrev pub new_capture : Env → Time → String → Capture → Raw → Capture
new_capture env stamp id given payload = record {
  maintenance_id = id;
  captured_at = if is_zero given.captured_at then stamp else given.captured_at;
  payload = payload;
  sha256 = env.sha256_hex payload;
}

-- The checks before the transaction, and the transaction: `stamp` is the clock before the transaction, `now` the clock in it
unfoldable pub checked_capture :
    Env → Time → Time → String → Capture → AuditContext → Db → Result (CaptureResult × Db)
checked_capture env stamp now id given audit db = do
  guard (valid_id id) invalid
  payload ← canonical_json_object given.payload
  targets ← parse_capture_targets env payload
  capture_maintenance_tx now id (new_capture env stamp id given payload) targets audit db

unfoldable pub capture_maintenance :
    Env → Time → Time → String → Capture → AuditContext → Db → Result CaptureResult × Db
unfolding write
capture_maintenance env stamp now id given audit db =
    write db (checked_capture env stamp now id given audit)
