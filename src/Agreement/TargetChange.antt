-- ===== src/Agreement/TargetChange.antt =====
-- A change of a target keeps the rows and the journal in agreement.
pub mod Step
pub mod Rows
use lazarus.Base.{
  ℕ, suc, ◌+◌, ◌<◌, String, ◌≡◌, refl, sym, ap, ◌∙◌, inl, inr, ◌⊎◌, Bool, true, false, not, ◌&&◌,
  ◌||◌, ◌==◌, Option, none, some, arith, find, update_first, List, [], ◌∷◌, ◌++◌, map, any, length,
  eqb, eq_iff, eq_refl, eqb_refl, if◌then◌else◌, Bool-cases, map_option,
}
use lazarus.Json.{Raw, is_valid}
use lazarus.Env.{Env}
use lazarus.Errors.{Result, ok, invalid, guard, ◌>>=◌, ◌>>◌}
use lazarus.Errors.Chains.{result_outcome}
use lazarus.Text.{valid_id, trim_space}
use lazarus.Text.Trim.{valid_id-ne_empty}
use lazarus.Model.{
  Time, next_version, is_positive, is_positive-pos, is_zero, AuditContext, StateChange, Maintenance,
  Target, TargetTransitionResult, Event,
}
use lazarus.Lifecycle.{valid_target_state, is_maintenance_terminal}
use lazarus.Precondition.{VersionPrecondition}
use lazarus.Tables.{
  Db, find_maintenance, find_target, targets_of, count_captures, find_capture, write,
}
use lazarus.Tables.Keys.{find-holds_id, find-holds_target}
use lazarus.Tables.Write.{write-keeps}
use lazarus.Journal.{stored_event, event_payload, audit_values}
use lazarus.Journal.Written.{with_row, IsAppended, append_event-IsAppended}
use lazarus.Payloads.Written.{event_payload-valid}
use lazarus.Mutations.Target.{
  target_event, target_event_type, target_change_allowed, transition_target_tx,
  checked_target_change, transition_target,
}
use lazarus.Mutations.Target.Accepted.{Accepted, accepted}
use lazarus.Mutations.Change.{exercises}
use lazarus.Replay.{ReplayMaintenance, SavedCapture, start, has_name, set_entry, apply}
use lazarus.Replay.Shape.{validate_event_shape}
use lazarus.Replay.Steps.{replay_events-append, replay_events-one}
use lazarus.Verify.{events_of, replay_events, load_capture_for_verify, created_matches}
use lazarus.Agreement.{Agrees, Consistent, entry_of}
use lazarus.Agreement.Frame.{
  set_maintenance, created_matches-set, Consistent-set, Untouched, events_of-with_row,
  events_of-with_row_other, exercises-with_row, exercises-with_row_other,
}
use Step.{written_event, target-apply, target-shape, target-physical, changed}
use Rows.{
  target_rows, record_target_change-append, targets_of-target_rows_other, entries-target_rows,
  inputs-target_rows, fit-target_rows, find-entry,
}

module _ (env : Env) (now : Time) (type : String) (m : Maintenance) (t : Target)
    (change : StateChange) (audit : AuditContext) (payload : Raw) (db : Db) (old : Agrees env db m)
    (target_found : find_target m.id t.id db ≡ some t)
    (typed : target_event_type t change audit ≡ ok type)
    (allowed : target_change_allowed m t change ≡ ok tt)
    (made : event_payload change.detail (trim_space change.justification) ≡ ok payload)
    (alive : is_maintenance_terminal m.state ≡ false)
    (in_range : is_positive (next_version m.version) ≡ true)
    (target_in_range : is_positive (next_version t.version) ≡ true) (dated : is_zero now ≡ false)
    (named : (m.id == "") ≡ false) (target_named : (t.id == "") ≡ false) where
  event : Event
  event = target_event type now m t change.state (audit_values audit) payload

  after : Db
  unfolding event
  after = with_row event (target_rows now m t change.state db)

  entry_found : find (has_name t.id) old.replay.targets ≡ some (entry_of t)
  entry_found = rw (old.targets) (rw (find-entry m.id t.id db) (rw target_found))

  -- the event extends the replay of the events before it
  step :
      replay_events env old.saved start (events_of m.id after) ≡ ok (changed old.replay m t change)
  unfolding after event events_of
  step = rw (events_of-with_row event (target_rows now m t change.state db) m.id refl named) (
      replay_events-append env old.saved start (events_of m.id db) _ old.replayed
      ∙ replay_events-one env old.saved old.replay
          (written_event (length db.journal + 1) type now m t change audit payload)
          (target-shape env old.saved old.replay (length db.journal + 1) type now m t change audit
            payload old.state old.revision (is_positive-pos m.version old.positive) entry_found
            alive target_named typed allowed made dated named (omega arith))
          (target-apply env old.saved old.replay (length db.journal + 1) type now m t change audit
            payload old.state old.revision (is_positive-pos m.version old.positive) entry_found
            alive target_named typed allowed made))

  advanced : Agrees env after (set_maintenance now m.state (next_version m.version) m)
  unfolding after event load_capture_for_verify find_capture count_captures targets_of
  advanced = record {
    saved = old.saved;
    replay = changed old.replay m t change;
    loaded = old.loaded;
    replayed = step;
    state = old.state;
    revision = refl;
    captured = old.captured;
    counted = old.counted;
    targets = rw (old.targets) (sym (entries-target_rows now m t change.state db));
    physical = rw (old.physical) (
        target-physical env old.saved old.replay (length db.journal + 1) type now m t change audit
          payload old.state old.revision (is_positive-pos m.version old.positive) entry_found alive
          target_named typed allowed made (any (exercises m.id) db.journal)
        ∙ sym (exercises-with_row event (target_rows now m t change.state db) m.id refl named));
    created =
        created_matches-set old.replay.created now m.state (next_version m.version) m ∙ old.created;
    fresh = old.fresh;
    inputs = inputs-target_rows now m t change.state db ∙ old.inputs;
    fit = fit-target_rows now m t change.state db target_in_range old.fit;
    untargeted = λ absent. ground (arith, old.untargeted absent);
    positive = in_range;
  }

  unreached : (id : String) → (m.id == id) ≡ false → Untouched id db after
  unfolding after event find_capture count_captures targets_of events_of
  unreached id apart = record {
    captures = refl;
    counts = refl;
    targets = targets_of-target_rows_other now m t change.state db id apart;
    events = events_of-with_row_other event (target_rows now m t change.state db) id apart;
    exercised = exercises-with_row_other event (target_rows now m t change.state db) id apart;
  }

  pub after-Consistent :
      find_maintenance m.id db ≡ some m
      → Consistent env db
      → Consistent env (
          with_row
            (target_event type now m t change.state (audit_values audit) payload)
            (target_rows now m t change.state db))
  unfolding after event
  after-Consistent found consistent =
      Consistent-set env db after (set_maintenance now m.state (next_version m.version)) m
        (λ x. refl) refl found advanced unreached consistent

-- the checks before the transaction
record Passed (maintenance_id target_id : String) {A : Type 0} (given : Result Raw)
    (body : Raw → Result A) (res : A) : Type 0 where
  payload : Raw
  named : valid_id maintenance_id ≡ true
  target_named : valid_id target_id ≡ true
  made : given ≡ ok payload
  done : body payload ≡ ok res

passed :
    {A : Type 0} (maintenance_id target_id : String) (known : Bool) (made : Result Raw)
    (body : Raw → Result A) {res : A}
    → (guard (valid_id maintenance_id && valid_id target_id && known) invalid >> (made >>= body))
      ≡ ok res
    → Passed maintenance_id target_id made body res
passed maintenance_id target_id known made body h = ground arith

module _ (env : Env) (now : Time) (maintenance_id target_id : String) (change : StateChange)
    (precondition : VersionPrecondition) (audit : AuditContext) (db : Db) where
  tx-Consistent :
      (payload : Raw) (db' : Db) (res : TargetTransitionResult)
      → (maintenance_id == "") ≡ false
      → (target_id == "") ≡ false
      → event_payload change.detail (trim_space change.justification) ≡ ok payload
      → transition_target_tx now maintenance_id target_id change precondition audit payload db
        ≡ ok (res, db')
      → Consistent env db
      → Consistent env db'
  tx-Consistent payload db' res named target_named made done old =
      let a =
        accepted now maintenance_id target_id change precondition audit payload db db' res done in
      let same = find-holds_id maintenance_id db a.found in
      let target_same = find-holds_target maintenance_id target_id db a.target_found in
      let rows =
        record_target_change-append a.type now a.m a.t change.state audit payload db db' res
          a.recorded in
      let appended = append_event-IsAppended _ _ _ rows.0 in
      rw (appended.written) (
        after-Consistent env now a.type a.m a.t change audit payload db
          (old.at maintenance_id a.m a.found)
          ((λ i. find_target (same i) (target_same i) db) ∙ a.target_found) a.typed a.allowed made
          a.alive rows.2 rows.1 appended.dated (rw same named) (rw target_same target_named)
          (ap (λ id. find_maintenance id db) same ∙ a.found) old)

  -- A change of a target, accepted or refused, keeps the tables consistent: the replay of the journal
  -- of every stored maintenance still ends in its row, its targets and its capture.
  pub transition_target-Consistent :
      Consistent env db
      → Consistent env
          (transition_target now maintenance_id target_id change precondition audit db).1
  unfolding transition_target checked_target_change
  transition_target-Consistent old =
      write-keeps (Consistent env) db
        (checked_target_change now maintenance_id target_id change precondition audit) old
        (λ res db' done.
          let p =
            passed maintenance_id target_id (valid_target_state change.state)
              (event_payload change.detail (trim_space change.justification))
              (λ payload.
                transition_target_tx now maintenance_id target_id change precondition audit payload
                  db)
              done in
          tx-Consistent p.payload db' res (valid_id-ne_empty maintenance_id p.named)
            (valid_id-ne_empty target_id p.target_named) p.made p.done old)
