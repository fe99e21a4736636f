-- ===== src/Journal.antt =====
-- internal/store/events.go and `auditValues` of internal/store/store.go: the append-only journal.
pub mod Written
use lazarus.Base.{
  ℕ, ◌*◌, String, Bool, not, ◌||◌, ◌==◌, ltb, eqb, if◌then◌else◌, Option, none, some,
}
use lazarus.Json.{Raw, Json, Fields, obj, str, field, end, print, is_valid, is_empty, empty_object}
use lazarus.Errors.{Result, ok, invalid, guard, refuse, ◌>>=◌, ◌>>◌}
use lazarus.Model.{AuditContext, Event, is_zero, within, read_back}
use lazarus.Tables.{Db, JournalRow, insert_event}

abbrev pub or_system : String → String
or_system s = if s == "" then "system" else s

unfoldable pub audit_values : AuditContext → AuditContext
audit_values a = record {
  actor = or_system a.actor;
  role = or_system a.role;
  request_id = or_system a.request_id;
}

abbrev pub null_text : String → Option String
null_text value = if value == "" then none else some value

abbrev pub null_int : ℕ → Option ℕ
null_int value = if eqb value 0 then none else some value

-- the values of the INSERT; SQLite gives the key
abbrev pub row_of : Event → JournalRow
row_of e = record {
  journal_id = 0;
  event_type = e.type;
  occurred_at = within e.occurred_at;
  request_id = e.request_id;
  actor = e.actor;
  role = e.role;
  resource_type = e.resource_type;
  resource_id = e.resource_id;
  maintenance_id = null_text e.maintenance_id;
  target_id = null_text e.target_id;
  from_state = null_text e.from_state;
  to_state = null_text e.to_state;
  from_version = null_int e.from_version;
  to_version = null_int e.to_version;
  aggregate_version = null_int e.aggregate_version;
  payload = e.payload;
}

-- the event as it is stored: its audit values and its payload have their defaults
unfoldable pub stored_event : Event → Event
unfolding audit_values
stored_event e =
    let audit =
      audit_values (record { actor = e.actor; role = e.role; request_id = e.request_id }) in
    record e {
      actor = audit.actor;
      role = audit.role;
      request_id = audit.request_id;
      payload = if is_empty e.payload then empty_object else e.payload;
    }

unfoldable pub append_event : Event → Db → Result Db
unfolding stored_event
append_event e db = do
  refuse (e.type == "" || e.resource_type == "" || e.resource_id == "" || is_zero e.occurred_at)
      invalid
  guard (is_valid (stored_event e).payload) invalid
  insert_event (row_of (stored_event e)) db

-- omitempty
abbrev pub justification_field : String → Fields → Fields
justification_field text rest = if text == "" then rest else field "justification" (str text) rest

abbrev pub detail_value : Option Json → Json
detail_value none = obj end
detail_value (some v) = v

-- The detail keeps its own layout inside the payload; only its value is read again.
unfoldable pub event_payload : Raw → String → Result Raw
event_payload detail justification = do
  let given = if is_empty detail then empty_object else detail
  guard (is_valid given) invalid
  refuse (ltb (64 * 1024) given.size) invalid
  ok (
      print
        (obj (justification_field justification (field "detail" (detail_value given.value) end))))

abbrev or_text : Option String → String
or_text none = ""
or_text (some s) = s

abbrev or_zero : Option ℕ → ℕ
or_zero none = 0
or_zero (some n) = n

-- `scanEvent` of internal/store/verify.go
unfoldable pub scan_event : JournalRow → Event
unfolding read_back
scan_event row = record {
  id = row.journal_id;
  type = row.event_type;
  occurred_at = read_back row.occurred_at;
  request_id = row.request_id;
  actor = row.actor;
  role = row.role;
  resource_type = row.resource_type;
  resource_id = row.resource_id;
  maintenance_id = or_text row.maintenance_id;
  target_id = or_text row.target_id;
  from_state = or_text row.from_state;
  to_state = or_text row.to_state;
  from_version = or_zero row.from_version;
  to_version = or_zero row.to_version;
  aggregate_version = or_zero row.aggregate_version;
  payload = row.payload;
}
