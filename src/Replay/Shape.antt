-- ===== src/Replay/Shape.antt =====
-- `validateEventShape` of internal/store/verify.go.
use text.Mathlib.Text.{starts_with}
use lazarus.Base.{not, ◌||◌, ◌==◌, ltb, eqb, if◌then◌else◌}
use lazarus.Json.{is_valid}
use lazarus.Errors.{Result, err, corrupt, refuse, ◌>>◌}
use lazarus.Model.{Event, is_zero}

-- what an event may name, by the prefix of its type
unfoldable pub validate_resource : Event → Result (Unit {0})
validate_resource e =
    if starts_with e.type "maintenance."
    then refuse
        (not (e.resource_type == "maintenance")
          || e.maintenance_id == ""
          || not (e.resource_id == e.maintenance_id)
          || not (e.target_id == ""))
        corrupt
    else if starts_with e.type "target."
    then refuse
        (not (e.resource_type == "target")
          || e.maintenance_id == ""
          || e.target_id == ""
          || not (e.resource_id == e.target_id))
        corrupt
    else if starts_with e.type "backup."
    then refuse
        (not (e.resource_type == "backup")
          || not (e.maintenance_id == "")
          || not (e.target_id == "")
          || not (e.from_state == "")
          || not (e.to_state == "")
          || not (eqb e.from_version 0)
          || not (eqb e.to_version 0)
          || not (eqb e.aggregate_version 0))
        corrupt
    else err corrupt

unfoldable pub validate_event_shape : Event → Result (Unit {0})
unfolding validate_resource
validate_event_shape e = do
  refuse
      (ltb e.id 1
        || e.type == ""
        || is_zero e.occurred_at
        || e.request_id == ""
        || e.actor == ""
        || e.role == ""
        || e.resource_type == ""
        || e.resource_id == ""
        || not (is_valid e.payload))
      corrupt
  validate_resource e
