-- ===== src/Replay/Created.antt =====
-- json.Unmarshal of a `maintenance.created` payload into a Maintenance.
use lazarus.Base.{Option, none, some}
use lazarus.Json.{Json, Raw, null, str}
use lazarus.Json.Decode.{object_fields, decode_field, assign_string, assign_int64, assign_raw}
use lazarus.Env.{Env}
use lazarus.Model.{Time, Maintenance, within}
use lazarus.Payloads.{unset}

infixl 5 ◌>>=◌
abbrev pub ◌>>=◌ {ℓ κ} : {A : Type ℓ} {B : Type κ} → Option A → (A → Option B) → Option B
none >>= f = none
some a >>= f = f a

-- a time.Time: null leaves it as it is; an instant that no clock gives is equal to none of the
-- journal's, and is refused here
unfoldable pub assign_instant : Env → Json → Time → Option Time
assign_instant env (str s) old = elim (env.parse_time s) [ some (within t) ↦ some t | _ ↦ none ]
assign_instant env null old = some old
assign_instant env _ old = none

unfoldable pub unmarshal_maintenance : Env → Raw → Option Maintenance
unfolding object_fields decode_field assign_string assign_int64 assign_raw assign_instant
unmarshal_maintenance env payload = do
  fields ← object_fields payload.value
  id ← decode_field assign_string "id" fields ""
  state ← decode_field assign_string "state" fields ""
  change_ticket ← decode_field assign_string "change_ticket" fields ""
  workflow_version ← decode_field assign_string "workflow_version" fields ""
  metadata ← decode_field assign_raw "metadata" fields unset
  version ← decode_field assign_int64 "version" fields 0
  created_at ← decode_field (assign_instant env) "created_at" fields 0
  updated_at ← decode_field (assign_instant env) "updated_at" fields 0
  some (record {
    id = id;
    state = state;
    change_ticket = change_ticket;
    workflow_version = workflow_version;
    metadata = metadata;
    version = version;
    created_at = created_at;
    updated_at = updated_at;
  })
