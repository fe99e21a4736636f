-- ===== src/Agreement/Capturing.antt =====
-- A capture keeps the rows and the journal in agreement.
mod Rows
mod Step
use lazarus.Base.{
  ℕ, ◌+◌, ◌<◌, String, ◌≡◌, refl, sym, ap, ◌∙◌, inl, inr, Bool, true, false, ◌||◌, ◌==◌, Option,
  none, some, List, [], ◌∷◌, ◌++◌, map, any, length, update_first, arith, eq_iff, eq_refl,
  if◌then◌else◌,
}
use lazarus.Json.{Raw}
use lazarus.Env.{Env}
use lazarus.Errors.{Result, ok}
use lazarus.Text.Trim.{valid_id-ne_empty}
use lazarus.Canonical.{canonical_json_object}
use lazarus.Model.{
  Time, next_version, is_positive, is_zero, AuditContext, Capture, CaptureResult, Maintenance,
  Target, Event,
}
use lazarus.Tables.{Db, find_maintenance, find_capture, count_captures, targets_of}
use lazarus.Tables.Keys.{find-holds_id}
use lazarus.Tables.Write.{write-keeps}
use lazarus.Journal.{append_event, audit_values}
use lazarus.Journal.Written.{with_row, append_event-IsAppended}
use lazarus.Mutations.Change.{exercises}
use lazarus.Mutations.Capture.{captured_event, new_capture, checked_capture, capture_maintenance}
use lazarus.Mutations.Capture.Parse.{CaptureTarget, parse_capture_targets}
use lazarus.Mutations.Capture.Accepted.{Accepted, accepted, capture_rows, record_capture-append}
use lazarus.Replay.{SavedCapture, start}
use lazarus.Replay.Steps.{replay_events-append, replay_events-one}
use lazarus.Verify.{events_of, replay_events, load_capture_for_verify, no_capture}
use lazarus.Agreement.{Agrees, Consistent, entry_of}
use lazarus.Agreement.Frame.{
  Untouched, set_maintenance, created_matches-set, Consistent-set, events_of-with_row,
  events_of-with_row_other, exercises-with_row, exercises-with_row_other,
}
use Rows.{
  entries-capture_rows, inputs-capture_rows, fit-capture_rows, targets_of-capture_rows_other,
  find_capture-capture_rows, find_capture-capture_rows_other, count_captures-capture_rows,
  count_captures-capture_rows_other,
}
use Step.{
  written_event, saved_capture, captured, no_capture-replay_events, check_capture-saved,
  captured-apply, captured-shape,
}

module _ (env : Env) (db : Db) (m : Maintenance) (old : Agrees env db m) (now : Time) (given : Raw)
    (capture : Capture) (inputs : List CaptureTarget) (audit : AuditContext)
    (canonical : canonical_json_object given ≡ ok capture.payload)
    (hash : capture.sha256 ≡ env.sha256_hex capture.payload)
    (parsed : parse_capture_targets env capture.payload ≡ ok inputs)
    (owner : capture.maintenance_id ≡ m.id) (uncaptured : find_capture m.id db ≡ none)
    (new : m.state ≡ "new") (next_positive : is_positive (next_version m.version) ≡ true)
    (dated : is_zero now ≡ false) (named : (m.id == "") ≡ false) where
  unsaved : old.saved ≡ no_capture
  unfolding load_capture_for_verify
  unsaved = ground (arith, old.loaded, uncaptured)

  absent : old.replay.captured ≡ false
  absent = old.captured ∙ ap (λ (s : SavedCapture). s.present) unsaved

  untargeted : targets_of m.id db ≡ []
  untargeted =
      elim (targets_of m.id db) as (λ ts. old.replay.targets ≡ map entry_of ts → ts ≡ []) [
        | [] ↦ λ _. refl
        | t ∷ ts ↦
            λ h. ground (arith, h, old.untargeted (ap (λ (s : SavedCapture). s.present) unsaved))
      ]
        old.targets

  event : Event
  event = captured_event now m capture (length inputs) (audit_values audit)

  rows : Db
  rows = capture_rows now m capture inputs db

  after : Db
  unfolding event rows
  after = with_row event rows

  own : (capture.maintenance_id == m.id) ≡ true
  own = rw owner (eq_refl m.id)

  step :
      replay_events env (saved_capture capture inputs) start (events_of m.id after)
      ≡ ok (captured old.replay m inputs)
  unfolding after event rows events_of
  step = rw (events_of-with_row event rows m.id refl named) (
      replay_events-append env (saved_capture capture inputs) start (events_of m.id db) _ (
        no_capture-replay_events env (saved_capture capture inputs) start (events_of m.id db) (
          ap (λ (s : SavedCapture). replay_events env s start (events_of m.id db)) (sym unsaved)
          ∙ old.replayed))
      ∙ replay_events-one env (saved_capture capture inputs) old.replay
          (written_event (length db.journal + 1) now m capture (length inputs) audit)
          (captured-shape env old.replay (length db.journal + 1) now m capture inputs audit
            (old.state ∙ new) old.revision absent dated named (omega arith))
          (captured-apply env old.replay (length db.journal + 1) now m capture inputs audit
            (old.state ∙ new) old.revision absent))

  advanced : Agrees env after (set_maintenance now "captured" (next_version m.version) m)
  unfolding after event rows load_capture_for_verify find_capture count_captures targets_of
  advanced = record {
    saved = saved_capture capture inputs;
    replay = captured old.replay m inputs;
    loaded =
        rw
          (
            find_capture-capture_rows now m capture inputs db uncaptured own,
            load_capture_for_verify,
          )
          (check_capture-saved env given capture inputs canonical hash parsed);
    replayed = step;
    state = refl;
    revision = refl;
    captured = refl;
    counted =
        count_captures-capture_rows now m capture inputs db
          (old.counted ∙ rw (ap (λ (s : SavedCapture). s.present) unsaved) refl) own;
    targets = sym (entries-capture_rows now m capture inputs db untargeted);
    physical =
        rw (old.physical) (sym (exercises-with_row event rows m.id refl named ∙ ground arith));
    created =
        created_matches-set old.replay.created now "captured" (next_version m.version) m
        ∙ old.created;
    fresh = λ h. ground (arith, (eq_iff "captured" "new").1 h);
    inputs = inputs-capture_rows now m capture inputs db untargeted;
    fit = fit-capture_rows now m capture inputs db untargeted;
    untargeted = λ h. cc;
    positive = next_positive;
  }

  apart_owner : (id : String) → (m.id == id) ≡ false → (capture.maintenance_id == id) ≡ false
  apart_owner id apart = rw owner apart

  unreached : (id : String) → (m.id == id) ≡ false → Untouched id db after
  unfolding after event rows find_capture count_captures targets_of events_of
  unreached id apart = record {
    captures = find_capture-capture_rows_other now m capture inputs db id (apart_owner id apart);
    counts = count_captures-capture_rows_other now m capture inputs db id (apart_owner id apart);
    targets = targets_of-capture_rows_other now m capture inputs db id apart;
    events = events_of-with_row_other event rows id apart;
    exercised = exercises-with_row_other event rows id apart;
  }

  after-Consistent :
      find_maintenance m.id db ≡ some m
      → Consistent env db
      → Consistent env (
          with_row
            (captured_event now m capture (length inputs) (audit_values audit))
            (capture_rows now m capture inputs db))
  unfolding after event rows
  after-Consistent found consistent =
      Consistent-set env db after (set_maintenance now "captured" (next_version m.version)) m
        (λ x. refl) refl found advanced unreached consistent

-- A capture, accepted or refused, keeps the tables consistent: the replay of the journal
-- of every stored maintenance still ends in its row, its targets and its capture.
pub capture_maintenance-Consistent :
    (env : Env) (stamp now : Time) (id : String) (capture : Capture) (audit : AuditContext)
    (db : Db)
    → Consistent env db
    → Consistent env (capture_maintenance env stamp now id capture audit db).1
unfolding capture_maintenance
capture_maintenance-Consistent env stamp now id capture audit db old =
    write-keeps (Consistent env) db (checked_capture env stamp now id capture audit) old
      λ res db' done. elim (accepted env stamp now id capture audit db db' res done) [
        | inl same ↦ rw same old
        | inr a ↦ first db' res a
      ]
  where
    first :
        (db' : Db) (res : CaptureResult)
        → Accepted env stamp now id capture audit db db' res
        → Consistent env db'
    first db' res a =
        let same : a.m.id ≡ id = find-holds_id id db a.found in
        let recorded =
          record_capture-append now a.m (new_capture env stamp id capture a.payload) a.targets audit
            db db' res a.recorded in
        let appended = append_event-IsAppended _ _ _ recorded.0 in
        rw (appended.written) (
          after-Consistent env db a.m (old.at id a.m a.found) now capture.payload
            (new_capture env stamp id capture a.payload) a.targets audit a.canonical refl a.parsed
            (sym same) (ap (λ i. find_capture i db) same ∙ a.uncaptured)
            ((eq_iff a.m.state "new").0 a.state) recorded.1 appended.dated
            (rw same (valid_id-ne_empty id a.valid))
            (ap (λ i. find_maintenance i db) same ∙ a.found) old)
