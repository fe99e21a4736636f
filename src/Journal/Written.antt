-- ===== src/Journal/Written.antt =====
-- What an accepted append leaves in the journal, and what the replay reads back of it.
use lazarus.Base.{
  ◌+◌, String, ◌≡◌, refl, inl, inr, Bool-cases, true, false, ◌==◌, [], ◌∷◌, ◌++◌, arith, eq_iff,
  length,
}
use lazarus.Json.{is_valid}
use lazarus.Errors.{ok}
use lazarus.Model.{Event, is_zero}
use lazarus.Tables.{Db, JournalRow, insert_event}
use lazarus.Journal.{row_of, stored_event, append_event, scan_event, or_system}

-- the row that the journal gets
abbrev pub journal_row : Event → Db → JournalRow
journal_row e db = record (row_of (stored_event e)) { journal_id = length db.journal + 1 }

abbrev pub with_row : Event → Db → Db
with_row e db = record db { journal = db.journal ++ journal_row e db ∷ [] }

pub record IsAppended (e : Event) (db db' : Db) : Type 0 where
  pub dated : is_zero e.occurred_at ≡ false
  pub valid : is_valid (stored_event e).payload ≡ true
  pub written : db' ≡ with_row e db

pub append_event-IsAppended :
    (e : Event) (db db' : Db) → append_event e db ≡ ok db' → IsAppended e db db'
unfolding append_event insert_event
append_event-IsAppended e db db' h = ground arith

-- Reading the row back gives the event that was stored, under its key.
pub scan-journal_row :
    (e : Event) (db : Db)
    → scan_event (journal_row e db) ≡ record (stored_event e) { id = length db.journal + 1 }
unfolding scan_event
scan-journal_row e db = ground (
  arith,
  eq_iff (stored_event e).maintenance_id "",
  eq_iff (stored_event e).target_id "",
  eq_iff (stored_event e).from_state "",
  eq_iff (stored_event e).to_state "",
)

pub or_system-ne_empty : (s : String) → (or_system s == "") ≡ false
or_system-ne_empty s = elim (Bool-cases (s == "")) [ inl e ↦ rw e refl | inr e ↦ rw e e ]
