-- ===== src/Agreement.antt =====
-- When the saved rows agree with the journal: the replay of a maintenance's events ends in its
-- row, in the rows of its targets and in its capture.
pub mod Frame
pub mod Distinct
pub mod Unrelated
pub mod Creation
pub mod Capturing
pub mod TargetChange
pub mod Observation
pub mod MaintenanceChange
use lazarus.Base.{
  ℕ, String, ◌≡◌, Bool, true, false, all, ltb, Option, none, some, List, [], map, any, eqb, ◌<◌,
  ◌≤◌, if◌then◌else◌, ◌==◌,
}
use lazarus.Env.{Env}
use lazarus.Errors.{ok}
use lazarus.Model.{Time, Moment, within, Maintenance, Target, is_positive, int64_limit}
use lazarus.Mutations.Capture.{read_back_opt}
use lazarus.Mutations.Capture.Parse.{CaptureTarget}
use lazarus.Tables.{Db, find_maintenance, find_capture, count_captures, targets_of}
use lazarus.Mutations.Change.{exercises}
use lazarus.Replay.{ReplayMaintenance, ReplayTarget, SavedCapture, start}
use lazarus.Verify.{load_capture_for_verify, events_of, replay_events, created_matches}

-- the entry of the replay that a row of targets stands for
abbrev pub entry_of : Target → String × ReplayTarget
entry_of t = (t.id, record { state = t.state; version = t.version; original = t.original_state })

abbrev pub of_time : Option Time → Option Moment
of_time none = none
of_time (some t) = some (within t)

-- what a row of targets keeps of its capture
abbrev pub input_of : Target → CaptureTarget
input_of t = record {
  target_id = t.id;
  lock_key = t.lock_key;
  kind = t.kind;
  host = t.host;
  original_state = t.original_state;
  observed_at = of_time t.observed_at;
  metadata = t.metadata;
}

-- what a row keeps of an input of the capture
abbrev pub stored_input : CaptureTarget → CaptureTarget
stored_input input = record input { observed_at = of_time (read_back_opt input.observed_at) }

-- every version of a listed target fits an int64
abbrev pub in_range : Target → Bool
in_range t = ltb t.version int64_limit

pub record Agrees (env : Env) (db : Db) (m : Maintenance) : Type 0 where
  pub saved : SavedCapture
  pub replay : ReplayMaintenance
  pub loaded : load_capture_for_verify env m.id db ≡ ok saved
  pub replayed : replay_events env saved start (events_of m.id db) ≡ ok replay
  pub state : replay.state ≡ m.state
  pub revision : replay.revision ≡ m.version
  pub captured : replay.captured ≡ saved.present
  pub counted : count_captures m.id db ≡ (if saved.present then 1 else 0)
  pub targets : replay.targets ≡ map entry_of (targets_of m.id db)
  pub physical : replay.physical_transition ≡ any (exercises m.id) db.journal
  pub created : created_matches replay.created m ≡ true
  pub fresh : m.state ≡ "new" → saved.present ≡ false
  -- the rows of the targets are those of the capture, in its order
  pub inputs : map input_of (targets_of m.id db) ≡ map stored_input saved.inputs
  pub fit : all in_range (targets_of m.id db) ≡ true
  -- targets come with the capture
  pub untargeted : saved.present ≡ false → replay.targets ≡ []
  pub positive : is_positive m.version ≡ true

-- The journal, the captures and the targets name no other maintenance than a stored one.
pub record Unowned (id : String) (db : Db) : Type 0 where
  pub uncaptured : find_capture id db ≡ none
  pub uncounted : count_captures id db ≡ 0
  pub untargeted : targets_of id db ≡ []
  pub unjournaled : events_of id db ≡ []
  pub unexercised : any (exercises id) db.journal ≡ false

pub record Consistent (env : Env) (db : Db) : Type 0 where
  pub at : (id : String) (m : Maintenance) → find_maintenance id db ≡ some m → Agrees env db m
  pub unowned : (id : String) → find_maintenance id db ≡ none → Unowned id db
