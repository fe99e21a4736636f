-- ===== src/Mutations/Observe.antt =====
-- `AddObservation` of internal/store/mutations.go.
pub mod Accepted
pub mod Retry
use lazarus.Base.{
  ℕ, ◌*◌, String, Bool, false, not, ◌&&◌, ◌==◌, ltb, if◌then◌else◌, Option, none, some, find,
}
use lazarus.Text.{valid_id}
use lazarus.Json.{Raw, raw_eq}
use lazarus.Canonical.{canonical_json_object}
use lazarus.Errors.{
  StoreError, invalid, conflict_base, conflict_error, Result, ok, err, guard, refuse, ◌>>=◌, ◌>>◌,
}
use lazarus.Model.{Time, AuditContext, Maintenance, Target, Event}
use lazarus.Lifecycle.{is_maintenance_terminal}
use lazarus.Precondition.{VersionPrecondition, require}
use lazarus.Tables.{Db, JournalRow, find_maintenance, find_target, write}
use lazarus.Journal.{append_event, audit_values}
use lazarus.Mutations.Target.{or_not_found}

abbrev is_text : Option String → String → Bool
is_text none s = false
is_text (some t) s = t == s

-- the WHERE clause that looks for an observation of the same request
abbrev pub is_observation : String → String → String → JournalRow → Bool
is_observation maintenance_id target_id request_id row =
    row.event_type == "target.observed"
    && is_text row.maintenance_id maintenance_id
    && is_text row.target_id target_id
    && row.request_id == request_id

unfoldable pub find_observation : String → String → String → Db → Option JournalRow
find_observation maintenance_id target_id request_id db =
    find (is_observation maintenance_id target_id request_id) db.journal

abbrev pub observed_event : Time → String → String → AuditContext → Raw → Event
observed_event now maintenance_id target_id audit payload = record {
  id = 0;
  type = "target.observed";
  occurred_at = now;
  request_id = audit.request_id;
  actor = audit.actor;
  role = audit.role;
  resource_type = "target";
  resource_id = target_id;
  maintenance_id = maintenance_id;
  target_id = target_id;
  from_state = "";
  to_state = "";
  from_version = 0;
  to_version = 0;
  aggregate_version = 0;
  payload = payload;
}

-- the first observation of a request
unfoldable pub observe_target :
    Time → String → String → Raw → VersionPrecondition → AuditContext → Db → Result (Unit {0} × Db)
unfolding conflict_error
observe_target now maintenance_id target_id canonical precondition audit db = do
  m ← or_not_found (find_maintenance maintenance_id db)
  t ← or_not_found (find_target maintenance_id target_id db)
  refuse (is_maintenance_terminal m.state) (
      conflict_error conflict_base "parent_maintenance_terminal" "maintenance" maintenance_id 0
        m.version m.state "observed")
  require precondition t.version "target" target_id t.state "observed"
  written ← append_event (observed_event now maintenance_id target_id audit canonical) db
  ok (tt, written)

-- A request that was recorded before succeeds again with the same payload, and with no other.
unfoldable pub add_observation_tx :
    Time → String → String → Raw → VersionPrecondition → AuditContext → Db → Result (Unit {0} × Db)
unfolding conflict_error observe_target find_observation
add_observation_tx now maintenance_id target_id canonical precondition audit db =
    elim (find_observation maintenance_id target_id audit.request_id db) [
      | none ↦ observe_target now maintenance_id target_id canonical precondition audit db
      | some row ↦
          if raw_eq row.payload canonical
          then ok (tt, db)
          else err (
              conflict_error conflict_base "observation_request_id_reused" "target" target_id 0 0 ""
                "observed")
    ]

-- the checks before the transaction, and the transaction
unfoldable pub checked_observation :
    Time → String → String → Raw → VersionPrecondition → AuditContext → Db → Result (Unit {0} × Db)
unfolding audit_values
checked_observation now maintenance_id target_id payload precondition audit db = do
  guard (valid_id maintenance_id && valid_id target_id) invalid
  canonical ← canonical_json_object payload
  refuse (ltb (64 * 1024) canonical.size) invalid
  add_observation_tx now maintenance_id target_id canonical precondition (audit_values audit) db

unfoldable pub add_observation :
    Time → String → String → Raw → VersionPrecondition → AuditContext → Db → Result (Unit {0}) × Db
unfolding write
add_observation now maintenance_id target_id payload precondition audit db =
    write db (checked_observation now maintenance_id target_id payload precondition audit)
