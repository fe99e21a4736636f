-- ===== src/Verify.antt =====
-- `verifyMaintenanceReplay`, `loadCaptureForVerify` and `verifyLockExclusivity` of
-- internal/store/verify.go: the saved rows against the journal and the capture.
pub mod Global
pub mod Application
use lazarus.Base.{
  String, Bool, true, false, not, ◌&&◌, ◌==◌, eqb, Option, none, some, List, [], ◌∷◌, map, length,
  all, any, select, find,
}
use lazarus.Text.{matches_name}
use lazarus.Json.{raw_eq}
use lazarus.Env.{Env}
use lazarus.Canonical.{canonical_json}
use lazarus.Errors.{Result, ok, err, corrupt, guard, refuse, ◌>>=◌, ◌>>◌}
use lazarus.Model.{Time, Moment, within, Event, Capture, Maintenance, Target}
use lazarus.Tables.{Db, JournalRow, find_maintenance, find_capture, list_targets, is_open}
use lazarus.Journal.{scan_event}
use lazarus.Mutations.Target.{or_not_found}
use lazarus.Mutations.Capture.Parse.{CaptureTarget, parse_capture_targets}
use lazarus.Replay.{ReplayMaintenance, ReplayTarget, SavedCapture, start, has_name, apply}
use lazarus.Replay.Shape.{validate_event_shape}

-- an error of a check becomes ErrCorrupt
abbrev pub or_corrupt {ℓ} : {A : Type ℓ} → Result A → Result A
or_corrupt (ok a) = ok a
or_corrupt (err e) = err corrupt

abbrev pub no_capture : SavedCapture
no_capture = record { present = false; hash = ""; inputs = [] }

-- a stored capture is canonical, has its own hash, and parses
unfoldable pub check_capture : Env → Capture → Result SavedCapture
unfolding matches_name
check_capture env capture = do
  canonical ← or_corrupt (canonical_json capture.payload)
  guard (raw_eq canonical capture.payload) corrupt
  guard (matches_name capture.sha256 (env.sha256_hex capture.payload)) corrupt
  inputs ← or_corrupt (parse_capture_targets env capture.payload)
  ok (record { present = true; hash = capture.sha256; inputs = inputs })

unfoldable pub load_capture_for_verify : Env → String → Db → Result SavedCapture
unfolding check_capture
load_capture_for_verify env id db = elim (find_capture id db) [
  | none ↦ ok no_capture
  | some capture ↦ check_capture env capture
]

-- maintenance_id=?
abbrev pub belongs : String → JournalRow → Bool
belongs id row = elim row.maintenance_id [ none ↦ false | some mid ↦ mid == id ]

-- SELECT … FROM journal_events WHERE maintenance_id=? ORDER BY journal_id
unfoldable pub events_of : String → Db → List Event
events_of id db = map scan_event (select (belongs id) db.journal)

-- the loop over the events
unfoldable pub replay_events :
    Env → SavedCapture → ReplayMaintenance → List Event → Result ReplayMaintenance
replay_events env saved r [] = ok r
replay_events env saved r (e ∷ es) = do
  or_corrupt (validate_event_shape e)
  next ← apply env saved r e
  replay_events env saved next es

-- the fields of the creation event that the row keeps
unfoldable pub created_matches : Option Maintenance → Maintenance → Bool
created_matches none actual = false
created_matches (some created) actual =
    created.id == actual.id
    && created.change_ticket == actual.change_ticket
    && created.workflow_version == actual.workflow_version
    && raw_eq created.metadata actual.metadata
    && eqb created.created_at actual.created_at

unfoldable pub bool_eq : Bool → Bool → Bool
bool_eq true b = b
bool_eq false b = not b

unfoldable pub maintenance_matches : ReplayMaintenance → SavedCapture → Maintenance → Bool
unfolding created_matches bool_eq
maintenance_matches r saved actual =
    r.state == actual.state
    && eqb r.revision actual.version
    && bool_eq r.captured saved.present
    && created_matches r.created actual

unfoldable pub same_time : Option Time → Option Moment → Bool
same_time none none = true
same_time (some a) (some (within b)) = eqb a b
same_time _ _ = false

-- a row of targets against its input in the capture and its replayed entry
unfoldable pub target_matches :
    Option CaptureTarget → Option (String × ReplayTarget) → Target → Bool
unfolding same_time
target_matches (some input) (some entry) t =
    t.lock_key == input.lock_key
    && t.original_state == input.original_state
    && t.kind == input.kind
    && t.host == input.host
    && same_time t.observed_at input.observed_at
    && raw_eq t.metadata input.metadata
    && t.state == (entry.1).state
    && eqb t.version (entry.1).version
target_matches _ _ t = false

abbrev pub is_input : String → CaptureTarget → Bool
is_input id input = input.target_id == id

unfoldable pub targets_match : ReplayMaintenance → SavedCapture → List Target → Bool
unfolding target_matches
targets_match r saved actual =
    eqb (length actual) (length saved.inputs)
    && eqb (length actual) (length r.targets)
    && all
        (λ t. target_matches (find (is_input t.id) saved.inputs) (find (has_name t.id) r.targets) t)
        actual

unfoldable pub verify_maintenance_replay : Env → String → Db → Result (Unit {0})
unfolding load_capture_for_verify events_of replay_events maintenance_matches targets_match
verify_maintenance_replay env id db = do
  actual ← or_not_found (find_maintenance id db)
  saved ← load_capture_for_verify env id db
  r ← replay_events env saved start (events_of id db)
  guard (maintenance_matches r saved actual) corrupt
  rows ← list_targets id db
  guard (targets_match r saved rows) corrupt

-- the target's maintenance is neither completed nor cancelled
unfoldable pub is_active : Db → Target → Bool
unfolding find_maintenance
is_active db t = elim (find_maintenance t.maintenance_id db) [
  | none ↦ false
  | some m ↦ is_open m.state
]

-- two active targets of different maintenances under one lock key
unfoldable pub overlaps : Db → Target → Target → Bool
unfolding is_active
overlaps db t u =
    t.lock_key == u.lock_key
    && not (t.maintenance_id == u.maintenance_id)
    && is_active db t
    && is_active db u

unfoldable pub verify_lock_exclusivity : Db → Result (Unit {0})
unfolding overlaps
verify_lock_exclusivity db = refuse (any (λ t. any (overlaps db t) db.targets) db.targets) corrupt
