-- ===== src/Witnesses.antt =====
-- The theorems at concrete calls and tables.
pub mod Retries
pub mod Values
pub mod Served
pub mod Verified
use lazarus.Base.{
  ◌↔◌, ◌++◌, map, arith, ◌<◌, ◌≤◌, ◌≡◌, ◌≢◌, refl, true, false, not, ◌&&◌, ◌||◌, ◌==◌, eqb, Option,
  none, some, List, [], ◌∷◌, all, length, if◌then◌else◌,
}
use lazarus.Json.{
  Json, Raw, print, json_size, raw_eq, is_valid, is_empty, empty_object, obj, str, field, end,
}
use lazarus.Errors.{ok, err, conflict_base, conflict_error}
use lazarus.Model.{AuditContext, Maintenance, Target, Capture, is_positive, next_version}
use lazarus.Text.{valid_id, trim_space, sql_length}
use lazarus.Lifecycle.{
  valid_maintenance_state, valid_maintenance_transition, is_maintenance_terminal,
  valid_target_state, valid_target_transition, target_completion_allowed, target_phase_allowed,
}
use lazarus.Canonical.{canonical_json_default, canonical_json_object}
use lazarus.Precondition.{require}
use lazarus.Tables.{
  Db, find_maintenance, find_capture, find_target, count_captures, targets_of, list_targets,
  insert_maintenance, insert_capture, insert_target, update_maintenance, update_target,
  bump_targets, lock_holder, insert_event,
}
use lazarus.Journal.{append_event, event_payload, audit_values, stored_event}
use lazarus.Payloads.{valid_justification, valid_event_justification}
use lazarus.Mutations.Create.{
  create_maintenance, checked_creation, new_maintenance, marshal_maintenance,
}
use lazarus.Mutations.Capture.{
  capture_maintenance, checked_capture, capture_maintenance_tx, record_capture, insert_targets,
  check_locks,
}
use lazarus.Mutations.Capture.Parse.{CaptureTarget, parse_capture_targets}
use lazarus.Mutations.Change.{
  transition_maintenance, checked_maintenance_change, transition_maintenance_tx,
  maintenance_event_type, maintenance_change_allowed, record_maintenance_change,
}
use lazarus.Mutations.Target.{
  transition_target, checked_target_change, transition_target_tx, target_event_type,
  target_change_allowed, record_target_change,
}
use lazarus.Mutations.Observe.{add_observation}
use lazarus.Payloads.Written.{event_payload-justification}
use lazarus.Journal.Written.{journal_row, scan-journal_row}
use lazarus.Journal.{scan_event}
use lazarus.Model.{Event, TargetTransitionResult, MaintenanceAggregate}
use lazarus.Canonical.Idempotent.{canonical_json_object_idem}
use lazarus.Lifecycle.Graph.{maintenance_edges_sound, target_edges_sound, maintenance_entries}
use lazarus.Mutations.Create.Payload.{unmarshal-marshal}
use lazarus.Mutations.Observe.{find_observation}
use lazarus.Mutations.Change.{check_reconciled, validate_completion, validate_stopped_barrier}
use lazarus.Mutations.Change.Barriers.{is_reconciled, validate_completion_iff}
use lazarus.Mutations.Change.Guarded.{transition_maintenance-IsGuarded}
use lazarus.Mutations.Change.Guarded.{IsGuarded as IsMaintenanceGuarded}
use lazarus.Mutations.Target.Guarded.{IsGuarded as IsTargetGuarded, transition_target-IsGuarded}
use lazarus.Replay.Created.{unmarshal_maintenance}
use lazarus.Agreement.{Consistent, entry_of}
use lazarus.Agreement.MaintenanceChange.Step.{validate_stopped_barrier_iff}
use lazarus.Replay.{is_stopped}
use lazarus.Agreement.Creation.{create_maintenance-Consistent}
use lazarus.Agreement.Capturing.{capture_maintenance-Consistent}
use lazarus.Agreement.MaintenanceChange.{transition_maintenance-Consistent}
use lazarus.Agreement.TargetChange.{transition_target-Consistent}
use lazarus.Agreement.Observation.{add_observation-Consistent}
use lazarus.Guarantees.LostUpdate.{at_version, transition_target-no_lost_update}
use lazarus.Guarantees.JournalGrowth.{IsExtended, execute_all-IsExtended}
use lazarus.Auth.{Token, load, identify}
use lazarus.Reads.{page_limit, Codec, EventListOptions, events_before, page_of}
use lazarus.Reads.Pages.{page_of-next}
use lazarus.Auth.Table.{IsSound, load-IsSound, load-identify}
use lazarus.Guarantees.Commands.{execute_all, empty_db}
use lazarus.Guarantees.Replayable.{IsReplayed, reachable-Consistent, reachable-IsReplayed}
use lazarus.Scenario.{
  unary_env, unary, count, admin, requested, requested_capture, capture_payload, to_state,
  any_version, no_raw, calls, stopping_db, creation, capturing, stopping,
}

abbrev stopping_m1 : Maintenance
stopping_m1 = record {
  id = "m1";
  state = "stopping";
  change_ticket = "CHG1";
  workflow_version = "";
  metadata = empty_object;
  version = 3;
  created_at = 5;
  updated_at = 8;
}

stopping_found : find_maintenance "m1" stopping_db ≡ some stopping_m1
unfolding execute_all create_maintenance checked_creation new_maintenance marshal_maintenance
    capture_maintenance checked_capture capture_maintenance_tx record_capture insert_targets
    check_locks parse_capture_targets transition_maintenance checked_maintenance_change
    transition_maintenance_tx maintenance_event_type maintenance_change_allowed
    record_maintenance_change append_event event_payload find_maintenance insert_maintenance
    insert_capture insert_target update_maintenance bump_targets list_targets lock_holder
    insert_event canonical_json_default canonical_json_object valid_id trim_space sql_length
    is_positive next_version valid_maintenance_state valid_maintenance_transition
    is_maintenance_terminal require print count_captures targets_of unary count json_size
stopping_found = refl

reachable-IsReplayed_example : IsReplayed unary_env stopping_db stopping_m1
reachable-IsReplayed_example = reachable-IsReplayed unary_env calls "m1" stopping_m1 stopping_found

reachable-Consistent_example : Consistent unary_env stopping_db
reachable-Consistent_example = reachable-Consistent unary_env calls

execute_all-IsExtended_example :
    IsExtended stopping_db (execute_all unary_env (stopping ∷ []) stopping_db)
execute_all-IsExtended_example = execute_all-IsExtended unary_env (stopping ∷ []) stopping_db

abbrev requested_m2 : Maintenance
requested_m2 = record requested { id = "m2" }

create_maintenance-Consistent_example :
    Consistent unary_env (create_maintenance unary_env 9 requested_m2 admin stopping_db).1
create_maintenance-Consistent_example =
    create_maintenance-Consistent unary_env 9 requested_m2 admin stopping_db
      (reachable-Consistent unary_env calls)

abbrev created_db : Db
created_db = execute_all unary_env (creation ∷ []) empty_db

capture_maintenance-Consistent_example :
    Consistent unary_env
      (capture_maintenance unary_env 6 7 "m1" requested_capture admin created_db).1
capture_maintenance-Consistent_example =
    capture_maintenance-Consistent unary_env 6 7 "m1" requested_capture admin created_db
      (reachable-Consistent unary_env (creation ∷ []))

abbrev captured_db : Db
captured_db = execute_all unary_env (creation ∷ capturing ∷ []) empty_db

transition_maintenance-Consistent_example :
    Consistent unary_env
      (transition_maintenance 8 "m1" (to_state "stopping") any_version admin captured_db).1
transition_maintenance-Consistent_example =
    transition_maintenance-Consistent unary_env 8 "m1" (to_state "stopping") any_version admin
      captured_db (reachable-Consistent unary_env (creation ∷ capturing ∷ []))

transition_target-Consistent_example :
    Consistent unary_env
      (transition_target 9 "m1" "t1" (to_state "stopping") (at_version 2) admin stopping_db).1
transition_target-Consistent_example =
    transition_target-Consistent unary_env 9 "m1" "t1" (to_state "stopping") (at_version 2) admin
      stopping_db (reachable-Consistent unary_env calls)

add_observation-Consistent_example :
    Consistent unary_env
      (add_observation 9 "m1" "t1" empty_object (at_version 2) admin stopping_db).1
add_observation-Consistent_example =
    add_observation-Consistent unary_env 9 "m1" "t1" empty_object (at_version 2) admin stopping_db
      (reachable-Consistent unary_env calls)

-- the rows of the scenario, without its journal
abbrev t1 : Target
t1 = record {
  id = "t1";
  maintenance_id = "m1";
  lock_key = "lock1";
  state = "captured";
  original_state = "running";
  kind = "";
  host = "";
  observed_at = none;
  metadata = empty_object;
  version = 2;
  created_at = 6;
  updated_at = 8;
}

abbrev m1_capture : Capture
m1_capture = record {
  maintenance_id = "m1";
  captured_at = 6;
  payload = capture_payload;
  sha256 = "digest";
}

abbrev rows : Db
rows = record {
  maintenances = stopping_m1 ∷ [];
  captures = m1_capture ∷ [];
  targets = t1 ∷ [];
  journal = [];
}

abbrev stopping_t1 : TargetTransitionResult
stopping_t1 = record {
  target = record t1 { state = "stopping"; version = 3; updated_at = 9 };
  maintenance_version = 4;
}

t1_stops :
    (transition_target 9 "m1" "t1" (to_state "stopping") (at_version 2) admin rows).0
    ≡ ok stopping_t1
unfolding transition_target checked_target_change transition_target_tx target_event_type
    target_change_allowed record_target_change append_event event_payload find_maintenance
    find_target update_maintenance update_target insert_event valid_id trim_space is_positive
    next_version valid_target_state valid_target_transition target_phase_allowed
    is_maintenance_terminal require print json_size
t1_stops = refl

transition_target-IsGuarded_example :
    IsTargetGuarded "m1" "t1" (to_state "stopping") (at_version 2) admin rows
transition_target-IsGuarded_example =
    transition_target-IsGuarded 9 "m1" "t1" (to_state "stopping") (at_version 2) admin rows
      stopping_t1 t1_stops

transition_target-no_lost_update_example :
    (transition_target 10 "m1" "t1"
      (to_state "stopped")
      (at_version 2)
      admin
      (transition_target 9 "m1" "t1" (to_state "stopping") (at_version 2) admin rows).1).0
    ≢ ok stopping_t1
transition_target-no_lost_update_example =
    transition_target-no_lost_update 9 "m1" "t1" (to_state "stopping") 2 admin rows stopping_t1 10
      (to_state "stopped") admin stopping_t1 t1_stops

abbrev stopped_rows : Db
stopped_rows = record rows { targets = record t1 { state = "stopped" } ∷ [] }

abbrev stopped_m1 : MaintenanceAggregate
stopped_m1 = record {
  maintenance = record stopping_m1 { state = "stopped"; version = 4; updated_at = 9 };
  targets = record t1 { state = "stopped"; version = 3; updated_at = 9 } ∷ [];
}

m1_stops :
    (transition_maintenance 9 "m1" (to_state "stopped") any_version admin stopped_rows).0
    ≡ ok stopped_m1
unfolding transition_maintenance checked_maintenance_change transition_maintenance_tx
    maintenance_event_type maintenance_change_allowed record_maintenance_change append_event
    event_payload find_maintenance update_maintenance bump_targets list_targets insert_event
    valid_id trim_space is_positive next_version valid_maintenance_state
    valid_maintenance_transition is_maintenance_terminal require print count_captures targets_of
    json_size validate_stopped_barrier
m1_stops = refl

transition_maintenance-IsGuarded_example :
    IsMaintenanceGuarded "m1" (to_state "stopped") any_version admin stopped_rows
transition_maintenance-IsGuarded_example =
    transition_maintenance-IsGuarded 9 "m1" (to_state "stopped") any_version admin stopped_rows
      stopped_m1 m1_stops

validate_stopped_barrier_iff_example :
    (validate_stopped_barrier "m1" stopped_rows ≡ ok tt)
    ↔ (all (λ e. is_stopped e.1) (map entry_of (targets_of "m1" stopped_rows)) ≡ true)
validate_stopped_barrier_iff_example = validate_stopped_barrier_iff "m1" stopped_rows

abbrev healthy_rows : Db
healthy_rows = record rows { targets = record t1 { state = "healthy" } ∷ [] }

m1_completes : validate_completion "m1" healthy_rows ≡ ok tt
unfolding validate_completion targets_of count_captures list_targets target_completion_allowed
    check_reconciled
m1_completes = refl

validate_completion_iff_example : (validate_completion "m1" healthy_rows ≡ ok tt) ↔ (
    (eqb (count_captures "m1" healthy_rows) 1 ≡ true)
    × (all is_reconciled (targets_of "m1" healthy_rows) ≡ true)
    × (eqb (length (targets_of "m1" healthy_rows)) 0 ≡ false))
validate_completion_iff_example = validate_completion_iff "m1" healthy_rows
