-- ===== src/Replay.antt =====
-- The replay of internal/store/verify.go: `replayMaintenance.apply` rebuilds a maintenance and its
-- targets from the events of the journal, and refuses what no operation writes. The errors of Go's
-- fmt.Errorf are one, since the caller wraps them all in ErrCorrupt.
pub mod Created
pub mod Shape
pub mod Steps
use lazarus.Base.{
  ℕ, ◌+◌, String, Bool, true, false, not, ◌&&◌, ◌||◌, ◌==◌, eqb, if◌then◌else◌, Option, none, some,
  List, [], ◌∷◌, map, length, all, find, update_first, is_some,
}
use lazarus.Json.{Raw, raw_eq}
use lazarus.Json.Decode.{object_fields, decode_field, assign_string, assign_nat}
use lazarus.Env.{Env}
use lazarus.Canonical.{canonical_json_object}
use lazarus.Errors.{Result, ok, err, corrupt, guard, refuse, ◌>>=◌, ◌>>◌}
use lazarus.Model.{Time, next_version, Event, Maintenance}
use lazarus.Lifecycle.{
  is_maintenance_terminal, valid_maintenance_transition, valid_target_transition,
  target_completion_allowed, target_phase_allowed,
}
use lazarus.Payloads.{decoded, valid_event_justification, valid_transition_payload}
use lazarus.Mutations.Target.{is_admin}
use lazarus.Mutations.Capture.{initial_state}
use lazarus.Mutations.Capture.Parse.{CaptureTarget}
use Created.{unmarshal_maintenance}

pub record ReplayTarget : Type 0 where
  pub state : String
  pub version : ℕ
  pub original : String

-- the map `targets` as the list of its entries
pub record ReplayMaintenance : Type 0 where
  pub state : String
  pub revision : ℕ
  pub captured : Bool
  pub targets : List (String × ReplayTarget)
  pub physical_transition : Bool
  pub created : Option Maintenance

-- `replayMaintenance{targets: make(map…)}`
abbrev pub start : ReplayMaintenance
start = record {
  state = "";
  revision = 0;
  captured = false;
  targets = [];
  physical_transition = false;
  created = none;
}

-- the capture that is stored for the maintenance
pub record SavedCapture : Type 0 where
  pub present : Bool
  pub hash : String
  pub inputs : List CaptureTarget

abbrev pub has_name : String → String × ReplayTarget → Bool
has_name id entry = entry.0 == id

abbrev pub target_entry : CaptureTarget → String × ReplayTarget
target_entry input = (
  input.target_id,
  record {
    state = initial_state input.original_state;
    version = 1;
    original = input.original_state;
  },
)

-- an error of a payload check is an error of the replay
abbrev pub checked {ℓ} : {B : Type ℓ} → Result (Unit {0}) → Result B → Result B
checked (ok _) k = k
checked (err _) k = err corrupt

apply_created : Env → ReplayMaintenance → Event → Result ReplayMaintenance
unfolding unmarshal_maintenance
apply_created env r e = do
  refuse
      (not (eqb r.revision 0)
        || not (e.resource_type == "maintenance")
        || not (e.target_id == "")
        || not (eqb e.aggregate_version 1)
        || not (e.from_state == "")
        || not (e.to_state == "")
        || not (eqb e.from_version 0)
        || not (eqb e.to_version 0))
      corrupt
  elim (unmarshal_maintenance env e.payload) [
    | none ↦ err corrupt
    | some created ↦ (do
      refuse
          (not (created.id == e.maintenance_id)
            || not (created.state == "new")
            || not (eqb created.version 1)
            || not (eqb created.created_at e.occurred_at))
          corrupt
      ok (record r { state = "new"; revision = 1; created = some created }))
  ]

-- `detail.SHA256 == captureHash && detail.Targets == len(capturedTargets)`
unfoldable pub detail_matches : Raw → SavedCapture → Result (Unit {0})
unfolding object_fields decode_field assign_string assign_nat
detail_matches payload saved = decoded (object_fields payload.value) λ fields.
    decoded (decode_field assign_string "sha256" fields "") λ sha256.
      decoded (decode_field assign_nat "targets" fields 0)
        λ targets. guard (sha256 == saved.hash && eqb targets (length saved.inputs)) corrupt

apply_captured : ReplayMaintenance → Event → SavedCapture → Result ReplayMaintenance
unfolding detail_matches
apply_captured r e saved = do
  refuse
      (not saved.present
        || r.captured
        || not (e.from_state == r.state)
        || not (eqb e.from_version r.revision)
        || not (e.to_state == "captured")
        || not (eqb e.to_version (next_version r.revision))
        || not (eqb e.aggregate_version e.to_version))
      corrupt
  checked (detail_matches e.payload saved) (
      ok (record r {
        state = "captured";
        revision = e.to_version;
        captured = true;
        targets = map target_entry saved.inputs;
      }))

-- what a reopening event must be
reopened_ok : ReplayMaintenance → Event → Result (Unit {0})
reopened_ok r e =
    if e.type == "maintenance.reopened"
    then (do
      refuse (not (r.state == "failed") || not (is_admin e.role)) corrupt
      checked (valid_event_justification e.payload) (
          refuse
            ((not r.captured && not (e.to_state == "new"))
              || (r.captured
                  && (e.to_state == "new"
                      || e.to_state == "completed"
                      || e.to_state == "cancelled")))
            corrupt))
    else refuse (r.state == "failed") corrupt

-- a target that does not keep a maintenance from `stopped`
abbrev pub is_stopped : ReplayTarget → Bool
is_stopped t =
    if t.original == "running" || t.original == "stopped"
    then t.state == "stopped" || t.state == "skipped"
    else t.state == "skipped"

abbrev no_targets : List (String × ReplayTarget) → Bool
no_targets [] = true
no_targets (_ ∷ _) = false

completion_ok : ReplayMaintenance → Event → Result (Unit {0})
completion_ok r e =
    if e.to_state == "completed"
    then (do
      refuse (not (e.type == "maintenance.completed") || no_targets r.targets) corrupt
      guard (all (λ t. target_completion_allowed t.1.original t.1.state) r.targets) corrupt)
    else refuse (e.type == "maintenance.completed") corrupt

abbrev pub bump_entry : String × ReplayTarget → String × ReplayTarget
bump_entry entry = (entry.0, record (entry.1) { version = next_version (entry.1).version })

apply_changed : ReplayMaintenance → Event → Result ReplayMaintenance
unfolding reopened_ok completion_ok
apply_changed r e = do
  refuse
      (eqb r.revision 0
        || not (e.resource_type == "maintenance")
        || not (e.target_id == "")
        || not (e.from_state == r.state)
        || not (eqb e.from_version r.revision)
        || not (eqb e.to_version (next_version r.revision))
        || not (eqb e.aggregate_version e.to_version)
        || not (valid_maintenance_transition r.state e.to_state))
      corrupt
  reopened_ok r e
  checked (valid_transition_payload e.payload) (ok tt)
  refuse (e.to_state == "captured" && not (e.type == "maintenance.reopened")) corrupt
  refuse (e.to_state == "cancelled" && r.captured && r.physical_transition) corrupt
  refuse (e.to_state == "stopped" && not (all (λ t. is_stopped t.1) r.targets)) corrupt
  completion_ok r e
  ok (record r {
    state = e.to_state;
    revision = e.to_version;
    targets = if r.captured then map bump_entry r.targets else r.targets;
  })

-- the checks of a skip, or of an ordinary change of a target
target_ok : ReplayMaintenance → ReplayTarget → Event → Result (Unit {0})
target_ok r t e =
    if e.to_state == "skipped"
    then (do
      refuse (not (e.type == "target.skipped") || not (is_admin e.role)) corrupt
      checked (valid_event_justification e.payload) (ok tt))
    else refuse
        (not (e.type == "target.transitioned")
          || t.original == "degraded"
          || t.original == "unknown"
          || t.original == "stopped"
          || not (target_phase_allowed r.state e.to_state))
        corrupt

abbrev pub set_entry : String → ℕ → String × ReplayTarget → String × ReplayTarget
set_entry state version entry = (entry.0, record (entry.1) { state = state; version = version })

apply_target : ReplayMaintenance → Event → Result ReplayMaintenance
unfolding target_ok
apply_target r e = do
  refuse
      (eqb r.revision 0
        || is_maintenance_terminal r.state
        || not (e.resource_type == "target")
        || e.target_id == ""
        || not (eqb e.aggregate_version (next_version r.revision)))
      corrupt
  elim (find (has_name e.target_id) r.targets) [
    | none ↦ err corrupt
    | some entry ↦ (do
      refuse
          (not (e.from_state == (entry.1).state)
            || not (eqb e.from_version (entry.1).version)
            || not (eqb e.to_version (next_version (entry.1).version))
            || not (valid_target_transition (entry.1).state e.to_state))
          corrupt
      target_ok r entry.1 e
      checked (valid_transition_payload e.payload) (ok tt)
      ok (record r {
        revision = e.aggregate_version;
        targets = update_first (has_name e.target_id) (set_entry e.to_state e.to_version) r.targets;
        physical_transition = if e.to_state == "skipped" then r.physical_transition else true;
      }))
  ]

abbrev canonical_as : Raw → Result Raw → Result (Unit {0})
canonical_as payload (ok canonical) = guard (raw_eq canonical payload) corrupt
canonical_as payload (err e) = err corrupt

apply_observed : ReplayMaintenance → Event → Result ReplayMaintenance
unfolding canonical_json_object
apply_observed r e = do
  refuse
      (is_maintenance_terminal r.state
        || e.target_id == ""
        || not (is_some (find (has_name e.target_id) r.targets))
        || not (eqb e.aggregate_version 0)
        || not (e.from_state == "")
        || not (e.to_state == "")
        || not (eqb e.from_version 0)
        || not (eqb e.to_version 0))
      corrupt
  canonical_as e.payload (canonical_json_object e.payload)
  ok r

unfoldable pub apply : Env → SavedCapture → ReplayMaintenance → Event → Result ReplayMaintenance
unfolding apply_created apply_captured apply_changed apply_target apply_observed
apply env saved r e =
    if e.type == "maintenance.created"
    then apply_created env r e
    else if e.type == "maintenance.captured"
    then apply_captured r e saved
    else if e.type == "maintenance.transitioned"
        || e.type == "maintenance.reopened"
        || e.type == "maintenance.completed"
    then apply_changed r e
    else if e.type == "target.transitioned" || e.type == "target.skipped"
    then apply_target r e
    else if e.type == "target.observed"
    then apply_observed r e
    else err corrupt
