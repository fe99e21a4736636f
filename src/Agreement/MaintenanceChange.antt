-- ===== src/Agreement/MaintenanceChange.antt =====
-- A change of a maintenance keeps the rows and the journal in agreement.
pub mod Step
mod Apply
pub mod Rows
use lazarus.Base.{
  ℕ, ◌+◌, String, ◌≡◌, refl, sym, ap, ◌∙◌, inl, inr, Bool, true, false, not, ◌&&◌, ◌||◌, ◌==◌, eqb,
  some, arith, List, [], ◌∷◌, ◌++◌, map, all, any, length, eq_iff, if◌then◌else◌, Bool-cases,
}
use lazarus.Json.{Raw}
use lazarus.Env.{Env}
use lazarus.Errors.{Result, ok, invalid, guard, ◌>>=◌, ◌>>◌}
use lazarus.Text.{valid_id, trim_space}
use lazarus.Text.Trim.{valid_id-ne_empty}
use lazarus.Model.{
  Time, next_version, is_positive, is_positive-pos, is_zero, AuditContext, StateChange, Maintenance,
  MaintenanceAggregate, Event,
}
use lazarus.Lifecycle.{valid_maintenance_state}
use lazarus.Precondition.{VersionPrecondition, require}
use lazarus.Tables.{Db, find_maintenance, targets_of, count_captures, find_capture, bump_targets}
use lazarus.Tables.Keys.{find-holds_id}
use lazarus.Tables.Write.{write-keeps}
use lazarus.Journal.{event_payload, audit_values}
use lazarus.Journal.Written.{with_row, append_event-IsAppended}
use lazarus.Mutations.Change.{
  maintenance_event, maintenance_event_type, maintenance_change_allowed, record_maintenance_change,
  exercises, transition_maintenance_tx, checked_maintenance_change, transition_maintenance,
  bump_if_captured,
}
use lazarus.Mutations.Change.Accepted.{Accepted, accepted}
use lazarus.Replay.{start, bump_entry}
use lazarus.Replay.Steps.{replay_events-append, replay_events-one}
use lazarus.Verify.{events_of, replay_events, load_capture_for_verify}
use lazarus.Agreement.{Agrees, Consistent, entry_of, in_range}
use lazarus.Agreement.Frame.{
  set_maintenance, created_matches-set, Consistent-set, Untouched, events_of-with_row,
  events_of-with_row_other, exercises-with_row, exercises-with_row_other,
}
use Step.{written_event, changed}
use Apply.{change-apply, change-shape, change-physical, change-fresh}
use Rows.{
  maintenance_rows, inputs-maintenance_rows, record_maintenance_change-append,
  targets_of-maintenance_rows_other, entries-maintenance_rows,
}

module _ (env : Env) (db : Db) (m : Maintenance) (old : Agrees env db m) (reopened type : String)
    (now : Time) (change : StateChange) (audit : AuditContext) (payload : Raw)
    (typed : maintenance_event_type m change audit db ≡ ok reopened)
    (allowed : maintenance_change_allowed m change reopened db ≡ ok type)
    (named : (m.id == "") ≡ false)
    (made : event_payload change.detail (trim_space change.justification) ≡ ok payload)
    (next_positive : is_positive (next_version m.version) ≡ true)
    (fits : all in_range (targets_of m.id (maintenance_rows now m change.state db)) ≡ true)
    (dated : is_zero now ≡ false) where
  event : Event
  event = maintenance_event type now m change.state (audit_values audit) payload

  rows : Db
  rows = maintenance_rows now m change.state db

  after : Db
  unfolding event rows
  after = with_row event rows

  same_targets : targets_of m.id after ≡ targets_of m.id rows
  unfolding after targets_of
  same_targets = refl

  same_captures : rows.captures ≡ db.captures
  unfolding rows bump_targets
  same_captures = ground arith

  same_journal : rows.journal ≡ db.journal
  unfolding rows bump_targets
  same_journal = ground arith

  -- the event extends the replay of the events before it
  step : replay_events env old.saved start (events_of m.id after) ≡ ok (changed old.replay m change)
  unfolding after event events_of
  step = rw (events_of-with_row event rows m.id refl named) (
      rw same_journal (
        replay_events-append env old.saved start (events_of m.id db) _ old.replayed
        ∙ replay_events-one env old.saved old.replay
            (written_event (length db.journal + 1) type now m change audit payload)
            (change-shape env db m old (length db.journal + 1) reopened type now change audit
              payload typed allowed named made dated (omega arith))
            (change-apply env db m old (length db.journal + 1) reopened type now change audit
              payload typed allowed named made)))

  advanced : Agrees env after (set_maintenance now change.state (next_version m.version) m)
  unfolding after event load_capture_for_verify find_capture count_captures targets_of
  advanced = record {
    saved = old.saved;
    replay = changed old.replay m change;
    loaded = rw same_captures old.loaded;
    replayed = step;
    state = refl;
    revision = refl;
    captured = old.captured;
    counted = rw same_captures old.counted;
    targets = rw (old.targets) (
        ground
          (arith, entries-maintenance_rows now m change.state db fits, old.captured, old.counted));
    physical = rw (old.physical) (
        sym (
          exercises-with_row event rows m.id refl named
          ∙ rw
              (
                same_journal,
                change-physical env db m old (length db.journal + 1) reopened type now change audit
                    payload typed allowed named made,
              )
              (ground arith)));
    created =
        created_matches-set old.replay.created now change.state (next_version m.version) m
        ∙ old.created;
    fresh =
        change-fresh env db m old (length db.journal + 1) reopened type now change audit payload
          typed allowed named made;
    inputs = inputs-maintenance_rows now m change.state db ∙ old.inputs;
    fit = fits;
    untargeted = λ absent. ground (arith, old.untargeted absent);
    positive = next_positive;
  }

  unreached : (id : String) → (m.id == id) ≡ false → Untouched id db after
  unfolding after event rows find_capture count_captures targets_of events_of
  unreached id apart = record {
    captures = rw same_captures refl;
    counts = rw same_captures refl;
    targets = targets_of-maintenance_rows_other now m change.state db id apart;
    events = events_of-with_row_other event rows id apart ∙ rw same_journal refl;
    exercised = exercises-with_row_other event rows id apart ∙ rw same_journal refl;
  }

  pub after-Consistent :
      find_maintenance m.id db ≡ some m
      → Consistent env db
      → Consistent env (
          with_row
            (maintenance_event type now m change.state (audit_values audit) payload)
            (maintenance_rows now m change.state db))
  unfolding after event rows
  after-Consistent found consistent =
      Consistent-set env db after (set_maintenance now change.state (next_version m.version)) m
        (λ x. refl) refl found advanced unreached consistent

-- A change of a maintenance, accepted or refused, keeps the tables consistent: the replay of the journal
-- of every stored maintenance still ends in its row, its targets and its capture.
pub transition_maintenance-Consistent :
    (env : Env) (now : Time) (id : String) (change : StateChange)
    (precondition : VersionPrecondition) (audit : AuditContext) (db : Db)
    → Consistent env db
    → Consistent env (transition_maintenance now id change precondition audit db).1
unfolding transition_maintenance targets_of
transition_maintenance-Consistent env now id change precondition audit db old =
    write-keeps (Consistent env) db (checked_maintenance_change now id change precondition audit)
      old
      λ res db' done.
        let a = accepted now id change precondition audit db db' res done in
        let same = find-holds_id id db a.found in
        let recorded =
          record_maintenance_change-append a.type now a.m change.state audit a.payload db db' res
            a.recorded in
        let appended = append_event-IsAppended _ _ _ recorded.0 in
        rw (appended.written) (
          after-Consistent env db a.m (old.at id a.m a.found) a.reopened a.type now change audit
            a.payload a.typed a.allowed (rw same (valid_id-ne_empty id a.valid)) a.made recorded.1
            (ap (λ (t : Db). all in_range (targets_of a.m.id t)) (sym appended.written)
              ∙ recorded.2)
            appended.dated (ap (λ i. find_maintenance i db) same ∙ a.found) old)
