-- ===== src/Agreement/Observation.antt =====
-- An observation keeps the rows and the journal in agreement.
use lazarus.Base.{
  ℕ, ◌+◌, ◌<◌, String, ◌≡◌, refl, sym, ap, ◌∙◌, inl, inr, false, ◌==◌, some, arith, find, length,
  eq_refl,
}
use lazarus.Json.{Raw}
use lazarus.Json.Equality.{raw_eq_refl}
use lazarus.Env.{Env}
use lazarus.Errors.{ok}
use lazarus.Text.Trim.{valid_id-ne_empty}
use lazarus.Model.{Time, is_zero, AuditContext, Maintenance, Target, Event}
use lazarus.Lifecycle.{is_maintenance_terminal}
use lazarus.Canonical.{canonical_json_object}
use lazarus.Canonical.Idempotent.{canonical_json_object_idem}
use lazarus.Precondition.{VersionPrecondition}
use lazarus.Tables.{Db, find_maintenance, find_target, find_capture, count_captures, targets_of}
use lazarus.Tables.Keys.{find-holds_id, find-holds_target}
use lazarus.Tables.Write.{write-keeps}
use lazarus.Journal.{append_event, audit_values, stored_event, or_system}
use lazarus.Journal.Written.{with_row, append_event-IsAppended, or_system-ne_empty}
use lazarus.Mutations.Observe.{observed_event, checked_observation, add_observation}
use lazarus.Mutations.Observe.Accepted.{Accepted, accepted}
use lazarus.Replay.{has_name, start, apply}
use lazarus.Replay.Shape.{validate_event_shape}
use lazarus.Replay.Steps.{replay_events-append, replay_events-one}
use lazarus.Verify.{events_of, replay_events, load_capture_for_verify}
use lazarus.Agreement.{Agrees, Consistent, entry_of}
use lazarus.Agreement.Frame.{Consistent-with_row, events_of-with_row, exercises-with_row}
use lazarus.Agreement.TargetChange.Rows.{find-entry}

abbrev written_event : ℕ → Time → String → String → AuditContext → Raw → Event
written_event key now mid tid audit payload =
    record (stored_event (observed_event now mid tid (audit_values audit) payload)) { id = key }

module _ (env : Env) (db : Db) (m : Maintenance) (t : Target) (old : Agrees env db m) (now : Time)
    (audit : AuditContext) (given payload : Raw)
    (canonical : canonical_json_object given ≡ ok payload)
    (target_found : find_target m.id t.id db ≡ some t)
    (alive : is_maintenance_terminal m.state ≡ false) (dated : is_zero now ≡ false)
    (named : (m.id == "") ≡ false) (target_named : (t.id == "") ≡ false) where
  entry_found : find (has_name t.id) old.replay.targets ≡ some (entry_of t)
  entry_found = rw (old.targets) (rw (find-entry m.id t.id db) (rw target_found))

  observed-apply :
      (key : ℕ)
      → apply env old.saved old.replay (written_event key now m.id t.id audit payload)
        ≡ ok old.replay
  unfolding apply stored_event
  observed-apply key = ground (
    arith,
    canonical_json_object_idem given canonical,
    entry_found,
    alive,
    old.state,
    target_named,
    raw_eq_refl payload,
  )

  observed-shape :
      (key : ℕ)
      → 0 < key
      → validate_event_shape (written_event key now m.id t.id audit payload) ≡ ok tt
  unfolding validate_event_shape stored_event
  observed-shape key positive_key = ground (
    arith,
    dated,
    named,
    target_named,
    eq_refl t.id,
    canonical_json_object_idem given canonical,
    or_system-ne_empty (or_system audit.request_id),
    or_system-ne_empty (or_system audit.actor),
    or_system-ne_empty (or_system audit.role),
  )

  event : Event
  event = observed_event now m.id t.id (audit_values audit) payload

  step : replay_events env old.saved start (events_of m.id (with_row event db)) ≡ ok old.replay
  unfolding event
  step = rw (events_of-with_row event db m.id refl named) (
      replay_events-append env old.saved start (events_of m.id db) _ old.replayed
      ∙ replay_events-one env old.saved old.replay
          (written_event (length db.journal + 1) now m.id t.id audit payload)
          (observed-shape (length db.journal + 1) (omega arith))
          (observed-apply (length db.journal + 1)))

  kept : Agrees env (with_row event db) m
  unfolding event load_capture_for_verify find_capture count_captures targets_of
  kept = record {
    saved = old.saved;
    replay = old.replay;
    loaded = old.loaded;
    replayed = step;
    state = old.state;
    revision = old.revision;
    captured = old.captured;
    counted = old.counted;
    targets = old.targets;
    physical = old.physical ∙ sym (exercises-with_row event db m.id refl named ∙ ground arith);
    created = old.created;
    inputs = old.inputs;
    fit = old.fit;
    fresh = old.fresh;
    untargeted = old.untargeted;
    positive = old.positive;
  }

  pub after-Consistent :
      find_maintenance m.id db ≡ some m
      → Consistent env db
      → Consistent env (with_row (observed_event now m.id t.id (audit_values audit) payload) db)
  unfolding event
  after-Consistent found consistent = Consistent-with_row env db event m refl found kept consistent

-- An observation, accepted or refused, keeps the tables consistent: the replay of the journal
-- of every stored maintenance still ends in its row, its targets and its capture.
pub add_observation-Consistent :
    (env : Env) (now : Time) (maintenance_id target_id : String) (given : Raw)
    (precondition : VersionPrecondition) (audit : AuditContext) (db : Db)
    → Consistent env db
    → Consistent env (add_observation now maintenance_id target_id given precondition audit db).1
unfolding add_observation
add_observation-Consistent env now maintenance_id target_id given precondition audit db old =
    write-keeps (Consistent env) db
      (checked_observation now maintenance_id target_id given precondition audit) old
      λ res db' done.
        elim (accepted now maintenance_id target_id given precondition audit db db' res done) [
          | inl same ↦ rw same old
          | inr a ↦ observed db' a
        ]
  where
    observed :
        (db' : Db)
        → Accepted now maintenance_id target_id given precondition audit db db'
        → Consistent env db'
    observed db' a =
        let same : a.m.id ≡ maintenance_id = find-holds_id maintenance_id db a.found in
        let target_same : a.t.id ≡ target_id =
          find-holds_target maintenance_id target_id db a.target_found in
        let appended : append_event
              (observed_event now a.m.id a.t.id (audit_values audit) a.payload) db
            ≡ ok db' =
          rw (same, target_same) a.appended in
        let written = append_event-IsAppended _ _ _ appended in
        rw (written.written) (
          after-Consistent env db a.m a.t (old.at maintenance_id a.m a.found) now audit given
            a.payload a.canonical ((λ i. find_target (same i) (target_same i) db) ∙ a.target_found)
            a.alive written.dated (rw same (valid_id-ne_empty maintenance_id a.valid))
            (rw target_same (valid_id-ne_empty target_id a.target_valid))
            (ap (λ i. find_maintenance i db) same ∙ a.found) old)
