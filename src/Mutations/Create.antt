-- ===== src/Mutations/Create.antt =====
-- `CreateMaintenance` of internal/store/mutations.go, and the JSON of a maintenance.
pub mod Accepted
pub mod Payload
use Prim.Native.String.{len}
use lazarus.Base.{
  ℕ, ◌*◌, String, Bool, not, ◌&&◌, ◌||◌, ◌==◌, ltb, if◌then◌else◌, Option, none, some,
}
use lazarus.Text.{valid_id}
use lazarus.Json.{Json, Fields, Raw, obj, str, num, field, end, print}
use lazarus.Env.{Env}
use lazarus.Canonical.{canonical_json_default}
use lazarus.Errors.{
  StoreError, invalid, unique_violation, conflict_base, conflict_error, Result, ok, err, guard,
  refuse, ◌>>=◌, ◌>>◌,
}
use lazarus.Model.{Time, AuditContext, Maintenance, Event}
use lazarus.Tables.{Db, insert_maintenance, write}
use lazarus.Journal.{append_event, audit_values, detail_value}

-- a string with omitempty
abbrev pub text_field : String → String → Fields → Fields
text_field name text rest = if text == "" then rest else field name (str text) rest

-- json.Marshal of a Maintenance whose metadata is not empty
unfoldable pub marshal_maintenance : Env → Maintenance → Raw
unfolding print
marshal_maintenance env m = print (
    obj (
      field "id" (str m.id) (
        field "state" (str m.state) (
          text_field "change_ticket" m.change_ticket (
            text_field "workflow_version" m.workflow_version (
              field "metadata" (detail_value m.metadata.value) (
                field "version" (num m.version) (
                  field "created_at" (str (env.format_time m.created_at))
                    (field "updated_at" (str (env.format_time m.updated_at)) end)))))))))

abbrev pub created_event : Env → Time → Maintenance → AuditContext → Event
created_event env now m audit = record {
  id = 0;
  type = "maintenance.created";
  occurred_at = now;
  request_id = audit.request_id;
  actor = audit.actor;
  role = audit.role;
  resource_type = "maintenance";
  resource_id = m.id;
  maintenance_id = m.id;
  target_id = "";
  from_state = "";
  to_state = "";
  from_version = 0;
  to_version = 0;
  aggregate_version = 1;
  payload = marshal_maintenance env m;
}

-- a key that is taken becomes a conflict
abbrev pub id_exists : String → Result Db → Result Db
id_exists id (ok db) = ok db
id_exists id (err unique_violation) =
    err (conflict_error conflict_base "maintenance_id_exists" "maintenance" id 0 1 "" "new")
id_exists id (err e) = err e

-- the checks before the transaction, and the row to insert
unfoldable pub new_maintenance : Time → Maintenance → Result Maintenance
new_maintenance now m = do
  let state = if m.state == "" then "new" else m.state
  guard (valid_id m.id && state == "new") invalid
  refuse (ltb 200 (len m.change_ticket) || ltb 100 (len m.workflow_version)) invalid
  metadata ← canonical_json_default m.metadata
  refuse (ltb (64 * 1024) metadata.size) invalid
  ok (record m {
    state = state;
    metadata = metadata;
    version = 1;
    created_at = now;
    updated_at = now;
  })

-- the checks before the transaction, and the transaction
unfoldable pub checked_creation :
    Env → Time → Maintenance → AuditContext → Db → Result (Maintenance × Db)
unfolding audit_values conflict_error
checked_creation env now m audit db = do
  row ← new_maintenance now m
  inserted ← id_exists row.id (insert_maintenance row db)
  written ← append_event (created_event env now row (audit_values audit)) inserted
  ok (row, written)

unfoldable pub create_maintenance :
    Env → Time → Maintenance → AuditContext → Db → Result Maintenance × Db
unfolding write
create_maintenance env now m audit db = write db (checked_creation env now m audit)
