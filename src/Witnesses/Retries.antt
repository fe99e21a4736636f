-- ===== src/Witnesses/Retries.antt =====
-- The theorems on repeated observations and captures at concrete calls.
use lazarus.Base.{◌≡◌, refl, some, [], ◌∷◌}
use lazarus.Json.{print, json_size, empty_object}
use lazarus.Errors.{ok}
use lazarus.Model.{AuditContext}
use lazarus.Canonical.{canonical_json_object}
use lazarus.Tables.{find_capture}
use lazarus.Model.{Event}
use lazarus.Guarantees.Immutable.{execute_all-find_capture}
use lazarus.Guarantees.Commands.{execute_all}
use lazarus.Scenario.{capturing, stopping}
use lazarus.Json.{Raw, obj, num, field, end}
use lazarus.Scenario.{unary_env}
use lazarus.Witnesses.{rows, m1_capture}

abbrev pub observation : Event
observation = record {
  id = 0;
  type = "target.observed";
  occurred_at = 9;
  request_id = "r9";
  actor = "";
  role = "admin";
  resource_type = "target";
  resource_id = "t1";
  maintenance_id = "m1";
  target_id = "t1";
  from_state = "";
  to_state = "";
  from_version = 0;
  to_version = 0;
  aggregate_version = 0;
  payload = empty_object;
}

abbrev observer : AuditContext
observer = record { actor = ""; role = "admin"; request_id = "r9" }

-- two texts of one object
abbrev pub readings : Raw
readings = print (obj (field "a" (num 2) (field "b" (num 1) end)))

abbrev pub readings_again : Raw
readings_again = print (obj (field "b" (num 1) (field "a" (num 2) end)))

pub readings_canonical : canonical_json_object readings_again ≡ ok readings
unfolding canonical_json_object print json_size
readings_canonical = refl

m1_captured : find_capture "m1" rows ≡ some m1_capture
unfolding find_capture
m1_captured = refl

execute_all-find_capture_example :
    find_capture "m1" (execute_all unary_env (capturing ∷ stopping ∷ []) rows) ≡ some m1_capture
execute_all-find_capture_example =
    execute_all-find_capture unary_env (capturing ∷ stopping ∷ []) rows "m1" m1_capture m1_captured
