-- ===== src/Witnesses/Values.antt =====
-- The theorems on payloads, the lifecycle, tokens and pages at concrete values.
use lazarus.Json.{Fields, num}
use lazarus.Json.Normal.{normal, normal_fields}
use lazarus.Json.Normal.Values.{last_value, last_value-normal_fields}
use lazarus.Base.{◌++◌, arith, ◌≡◌, refl, true, false, ◌||◌, ◌==◌, Option, some, [], ◌∷◌}
use lazarus.Json.{Json, Raw, print, is_valid, is_empty, obj, str, field, end}
use lazarus.Errors.{ok}
use lazarus.Text.{trim_space}
use lazarus.Lifecycle.{
  valid_maintenance_state, valid_maintenance_transition, valid_target_state,
  valid_target_transition,
}
use lazarus.Canonical.{canonical_json_object}
use lazarus.Tables.{Db}
use lazarus.Journal.{event_payload, stored_event}
use lazarus.Payloads.{valid_justification, valid_event_justification}
use lazarus.Payloads.Written.{event_payload-justification}
use lazarus.Journal.Written.{journal_row}
use lazarus.Canonical.Idempotent.{canonical_json_object_idem}
use lazarus.Lifecycle.Graph.{maintenance_edges_sound, target_edges_sound, maintenance_entries}
use lazarus.Auth.{Token, load, identify}
use lazarus.Reads.{Codec, EventListOptions, events_before, page_of}
use lazarus.Reads.Pages.{page_of-next}
use lazarus.Auth.Table.{IsSound, load-IsSound, load-identify}
use lazarus.Scenario.{unary, count, no_raw}
use lazarus.Witnesses.{rows}
use lazarus.Witnesses.Retries.{observation, readings, readings_again, readings_canonical}

abbrev skip_payload : Raw
skip_payload = print (obj (field "justification" (str "lost") (field "detail" (obj end) end)))

skip_written : event_payload no_raw (trim_space " lost ") ≡ ok skip_payload
unfolding event_payload trim_space print
skip_written = refl

skip_justified : valid_justification " lost " ≡ ok tt
unfolding valid_justification
skip_justified = refl

event_payload-justification_example : valid_event_justification skip_payload ≡ ok tt
event_payload-justification_example =
    event_payload-justification no_raw " lost " skip_written skip_justified

canonical_json_object_idem_example :
    (canonical_json_object readings ≡ ok readings)
    × (is_valid readings ≡ true)
    × (is_empty readings ≡ false)
canonical_json_object_idem_example = canonical_json_object_idem readings_again readings_canonical

captured_stopping : valid_maintenance_transition "captured" "stopping" ≡ true
unfolding valid_maintenance_transition
captured_stopping = refl

maintenance_edges_sound_example :
    (valid_maintenance_state "captured" ≡ true)
    × (valid_maintenance_state "stopping" ≡ true)
    × (("captured" == "completed") ≡ false)
    × (("captured" == "cancelled") ≡ false)
    × (("captured" == "stopping") ≡ false)
maintenance_edges_sound_example = maintenance_edges_sound "captured" "stopping" captured_stopping

captured_cancelled : valid_maintenance_transition "captured" "cancelled" ≡ true
unfolding valid_maintenance_transition
captured_cancelled = refl

maintenance_entries_example :
    (("cancelled" == "cancelled") ≡ true → ("captured" == "new" || "captured" == "captured") ≡ true)
    × (("cancelled" == "new") ≡ true → ("captured" == "failed") ≡ true)
maintenance_entries_example = maintenance_entries "captured" "cancelled" captured_cancelled

starting_healthy : valid_target_transition "starting" "healthy" ≡ true
unfolding valid_target_transition
starting_healthy = refl

target_edges_sound_example :
    (valid_target_state "starting" ≡ true)
    × (valid_target_state "healthy" ≡ true)
    × (("starting" == "healthy") ≡ false)
    × (("starting" == "skipped") ≡ false)
    × (("starting" == "healthy") ≡ false)
    × (valid_target_transition "starting" "skipped" ≡ true)
target_edges_sound_example = target_edges_sound "starting" "healthy" starting_healthy

abbrev ops_line : Option Json
ops_line = some (
    obj
      (field "token" (str "s3cret") (field "role" (str "operator") (field "name" (str "ops") end))))

abbrev audit_line : Option Json
audit_line = some (
    obj
      (field "name" (str "audit") (field "token" (str "other") (field "role" (str "reader") end))))

abbrev ops_token : Token
ops_token = record { name = "ops"; role = "operator"; value = "s3cret" }

abbrev audit_token : Token
audit_token = record { name = "audit"; role = "reader"; value = "other" }

file_loads : load (λ s. s) (ops_line ∷ audit_line ∷ []) ≡ some (ops_token ∷ audit_token ∷ [])
unfolding load
file_loads = refl

load-IsSound_example : IsSound (λ s. s) (ops_token ∷ audit_token ∷ [])
load-IsSound_example = load-IsSound (λ s. s) (ops_line ∷ audit_line ∷ []) file_loads

load-identify_example :
    identify (λ s. s) "other" (ops_token ∷ audit_token ∷ [])
    ≡ some (record { name = "audit"; role = "reader" })
load-identify_example =
    load-identify (λ s. s) (ops_line ∷ audit_line ∷ []) (ops_token ∷ []) audit_token [] file_loads

abbrev two_rows : Db
two_rows = record rows {
  journal =
      record (journal_row observation rows) { journal_id = 1 }
      ∷ record (journal_row observation rows) { journal_id = 2 }
      ∷ [];
}

abbrev all_events : EventListOptions
all_events = record {
  maintenance_id = "";
  target_id = "";
  event_type = "";
  resource_type = "";
  resource_id = "";
  actor = "";
  role = "";
  request_id = "";
  cursor = "";
  limit = 1;
}

abbrev unary_codec : Codec
unary_codec = record {
  encode = λ s. s;
  decode = λ s. some s;
  format_int = unary;
  parse_int = λ s. some (count s);
}

page_of-next_example :
    ((page_of unary_codec (λ row. row.journal_id) 1 (events_before all_events 0 two_rows)).items
        ++ events_before all_events 2 two_rows
      ≡ events_before all_events 0 two_rows)
    × ((page_of unary_codec
          (λ row. row.journal_id)
          1
          (events_before all_events 0 two_rows)).next_cursor
        ≡ unary 2)
unfolding page_of stored_event
page_of-next_example = page_of-next unary_codec all_events 0 0 two_rows refl refl (omega arith)

-- {"b": 2, "a": 1, "b": 3}
abbrev repeated : Fields
repeated = field "b" (num 2) (field "a" (num 1) (field "b" (num 3) end))

repeated_normal : normal_fields repeated ≡ field "a" (num 1) (field "b" (num 3) end)
unfolding normal_fields
repeated_normal = refl

last_value-normal_fields_example : last_value "b" (normal_fields repeated) ≡ some (num 3)
unfolding normal
last_value-normal_fields_example = last_value-normal_fields "b" repeated
