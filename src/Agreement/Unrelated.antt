-- ===== src/Agreement/Unrelated.antt =====
-- An event that names no maintenance, such as that of a backup, leaves every maintenance in
-- agreement with its own events.
use lazarus.Base.{String, ◌≡◌, refl, none, [], ◌∷◌, arith, select}
use lazarus.Base.{select-append, any-append}
use lazarus.Env.{Env}
use mathlib.Core.List.{append-nil}
use lazarus.Model.{Event}
use lazarus.Tables.{Db, find_maintenance, find_capture, count_captures, targets_of}
use lazarus.Journal.{stored_event}
use lazarus.Journal.Written.{with_row, journal_row}
use lazarus.Verify.{events_of, belongs}
use lazarus.Agreement.{Consistent}
use lazarus.Agreement.Frame.{Untouched, Agrees-frame, Unowned-frame}

module _ (e : Event) (db : Db) (free : e.maintenance_id ≡ "") where
  unowned : (journal_row e db).maintenance_id ≡ none
  unfolding stored_event
  unowned = rw free refl

  unrelated_row : (id : String) → select (belongs id) (journal_row e db ∷ []) ≡ []
  unfolding stored_event
  unrelated_row id = ground (arith, unowned)

  Untouched-unrelated : (id : String) → Untouched id db (with_row e db)
  unfolding find_capture count_captures targets_of events_of stored_event
  Untouched-unrelated id = record {
    captures = refl;
    counts = refl;
    targets = refl;
    events =
        rw (select-append (belongs id) db.journal (journal_row e db ∷ []))
          (rw (unrelated_row id) (rw append-nil));
    exercised = rw any-append (ground (arith, unowned));
  }

  -- Whatever it says, it keeps the tables consistent.
  pub unrelated-Consistent : (env : Env) → Consistent env db → Consistent env (with_row e db)
  unfolding find_maintenance
  unrelated-Consistent env old = record {
    at = λ id x here.
        Agrees-frame env db (with_row e db) x (Untouched-unrelated x.id) (old.at id x here);
    unowned = λ id gone.
        Unowned-frame id db (with_row e db) (Untouched-unrelated id) (old.unowned id gone);
  }
