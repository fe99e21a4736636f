-- ===== src/Agreement/Creation.antt =====
-- A creation keeps the rows and the journal in agreement.
use lazarus.Base.{
  ℕ, ◌+◌, ◌<◌, String, ◌≡◌, refl, sym, ap, ◌∙◌, inl, inr, true, false, ◌==◌, eqb_refl, none, some,
  arith, find, List, [], ◌∷◌, ◌++◌, map, any, length, eq_iff, eq_refl, Bool-cases, find-append_none,
  find-append_some, find-any-none, Option-cases,
}
use lazarus.Json.Equality.{raw_eq_refl}
use lazarus.Env.{Env}
use lazarus.Errors.{ok}
use lazarus.Text.Trim.{valid_id-ne_empty}
use lazarus.Model.{Time, is_positive, is_zero, AuditContext, Maintenance, Event}
use lazarus.Canonical.Idempotent.{canonical_json_default-IsPrint}
use lazarus.Tables.{Db, find_maintenance, find_capture, count_captures, targets_of}
use lazarus.Tables.Keys.{find-holds_id}
use lazarus.Tables.Write.{write-keeps}
use lazarus.Journal.{audit_values, stored_event, or_system}
use lazarus.Journal.Written.{with_row, append_event-IsAppended, or_system-ne_empty}
use lazarus.Mutations.Create.{created_event, checked_creation, create_maintenance}
use lazarus.Mutations.Create.Accepted.{IsNew, new_maintenance-IsNew, with_maintenance, accepted}
use lazarus.Mutations.Create.Payload.{unmarshal-marshal, marshal-valid}
use lazarus.Replay.{ReplayMaintenance, start, apply}
use lazarus.Replay.Shape.{validate_event_shape}
use lazarus.Replay.Steps.{replay_events-one}
use lazarus.Verify.{events_of, replay_events, load_capture_for_verify, no_capture, created_matches}
use lazarus.Agreement.{all, Agrees, Unowned, Consistent, entry_of, input_of, in_range}
use lazarus.Agreement.Frame.{
  Untouched, Untouched-with_row, Agrees-frame, Unowned-frame, events_of-with_row,
  exercises-with_row,
}

-- the state of a replay after its first event
abbrev pub begun : Maintenance → ReplayMaintenance
begun row = record start { state = "new"; revision = 1; created = some row }

abbrev written_event : Env → ℕ → Time → Maintenance → AuditContext → Event
written_event env key now row audit =
    record (stored_event (created_event env now row (audit_values audit))) { id = key }

module _ (env : Env) (db : Db) (now : Time) (given row : Maintenance) (audit : AuditContext)
    (new : IsNew now given row) (dated : is_zero now ≡ false) where
  created-apply :
      (key : ℕ) → apply env no_capture start (written_event env key now row audit) ≡ ok (begun row)
  unfolding apply stored_event
  created-apply key =
      let p = canonical_json_default-IsPrint given.metadata new.canonical in
      let state : (row.state == "new") ≡ true = rw (new.state) refl in
      ground (
        arith,
        unmarshal-marshal env row p.value p.printed (rw (new.version) refl),
        marshal-valid env row,
        state,
        new.version,
        new.created_at,
        eq_refl row.id,
        eqb_refl now,
      )

  created-shape :
      (key : ℕ) → 0 < key → validate_event_shape (written_event env key now row audit) ≡ ok tt
  unfolding validate_event_shape stored_event
  created-shape key positive_key = ground (
    arith,
    dated,
    valid_id-ne_empty row.id new.valid,
    eq_refl row.id,
    marshal-valid env row,
    or_system-ne_empty (or_system audit.request_id),
    or_system-ne_empty (or_system audit.actor),
    or_system-ne_empty (or_system audit.role),
  )

  event : Event
  event = created_event env now row (audit_values audit)

  rows : Db
  rows = with_maintenance row db

  after : Db
  unfolding event rows
  after = with_row event rows

  matches : created_matches (some row) row ≡ true
  unfolding created_matches
  matches = ground (
    arith,
    eq_refl row.id,
    eq_refl row.change_ticket,
    eq_refl row.workflow_version,
    raw_eq_refl row.metadata,
    eqb_refl row.created_at,
  )

  module _ (unowned : Unowned row.id db) where
    step : replay_events env no_capture start (events_of row.id after) ≡ ok (begun row)
    unfolding after event rows events_of
    step = rw (events_of-with_row event rows row.id refl (valid_id-ne_empty row.id new.valid)) (
        ap
          (λ (es : List Event).
            replay_events env no_capture start
              (es ++ written_event env (length db.journal + 1) now row audit ∷ []))
          unowned.unjournaled
        ∙ replay_events-one env no_capture start
            (written_event env (length db.journal + 1) now row audit)
            (created-shape (length db.journal + 1) (omega arith))
            (created-apply (length db.journal + 1)))

    fresh : Agrees env after row
    unfolding after event rows load_capture_for_verify find_capture count_captures targets_of
        is_positive
    fresh = record {
      saved = no_capture;
      replay = begun row;
      loaded = rw (unowned.uncaptured, load_capture_for_verify) refl;
      replayed = step;
      state = sym new.state;
      revision = sym new.version;
      captured = refl;
      counted = unowned.uncounted;
      targets = ap (map entry_of) (sym unowned.untargeted);
      physical = sym (
          exercises-with_row event rows row.id refl (valid_id-ne_empty row.id new.valid)
          ∙ rw (unowned.unexercised) refl);
      created = matches;
      inputs = ap (map input_of) unowned.untargeted;
      fit = ap (all in_range) unowned.untargeted;
      fresh = λ _. refl;
      untargeted = λ _. refl;
      positive = rw (new.version) refl;
    }

  untouched : (id : String) → (row.id == id) ≡ false → Untouched id db after
  unfolding after event rows find_capture count_captures targets_of events_of
  untouched id apart =
      let u = Untouched-with_row event rows id apart in
      record {
        captures = refl;
        counts = refl;
        targets = refl;
        events = u.events;
        exercised = u.exercised;
      }

  pub after-Consistent :
      any (λ x. x.id == row.id) db.maintenances ≡ false
      → Consistent env db
      → Consistent env
          (with_row (created_event env now row (audit_values audit)) (with_maintenance row db))
  unfolding event rows after find_maintenance
  after-Consistent free old = record {
    at = λ id x here. elim (Option-cases (find_maintenance id db)) [
      | inl gone ↦
          let found : find (λ m. m.id == id) (row ∷ []) ≡ some x =
            sym (find-append_none (λ m. m.id == id) db.maintenances (row ∷ []) gone) ∙ here in
          let same : row.id ≡ id = (eq_iff row.id id).0 (ground (arith, found)) in
          let one : row ≡ x = ground (arith, found) in
          rw (← one) (fresh (rw same (old.unowned id gone)))
      | inr (y, there) ↦
          let same : some y ≡ some x =
            sym (find-append_some (λ m. m.id == id) db.maintenances (row ∷ []) there) ∙ here in
          let one : y ≡ x = cc in
          Agrees-frame env db after x
            (untouched x.id
              (rw (find-holds_id id db (there ∙ same)) (apart id {x = x} (there ∙ same))))
            (old.at id x (there ∙ same))
    ];
    unowned = λ id gone. elim (Option-cases (find_maintenance id db)) [
      | inl before ↦
          Unowned-frame id db after
            (untouched id (
              ground (
                arith,
                sym (find-append_none (λ m. m.id == id) db.maintenances (row ∷ []) before) ∙ gone,
              )))
            (old.unowned id before)
      | inr (y, there) ↦
          absent (sym (find-append_some (λ m. m.id == id) db.maintenances (row ∷ []) there) ∙ gone)
    ];
  }
    where
      absent : {P : Type 0} {a : Maintenance} → some a ≡ none → P
      absent h = cc

      apart :
          (id : String) {x : Maintenance} → find_maintenance id db ≡ some x → (row.id == id) ≡ false
      apart id here = elim (Bool-cases (row.id == id)) [
        | inl e ↦ absent (
            sym here
            ∙ rw (← (eq_iff row.id id).0 e)
                (find-any-none (λ m. m.id == row.id) db.maintenances free))
        | inr e ↦ e
      ]

-- A creation, accepted or refused, keeps the tables consistent: the replay of the journal
-- of every stored maintenance still ends in its row, its targets and its capture.
pub create_maintenance-Consistent :
    (env : Env) (now : Time) (m : Maintenance) (audit : AuditContext) (db : Db)
    → Consistent env db
    → Consistent env (create_maintenance env now m audit db).1
unfolding create_maintenance
create_maintenance-Consistent env now m audit db old =
    write-keeps (Consistent env) db (checked_creation env now m audit) old λ row db' done.
      let a = accepted env now m audit db db' row done in
      let appended = append_event-IsAppended _ _ _ a.appended in
      rw (appended.written) (
        after-Consistent env db now m row audit (new_maintenance-IsNew now m row a.made)
          appended.dated a.free old)
