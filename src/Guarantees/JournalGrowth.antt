-- ===== src/Guarantees/JournalGrowth.antt =====
-- The journal only grows: no operation changes or drops a row of it.
use mathlib.Core.List.{append-nil, append_assoc}
use lazarus.Base.{◌≡◌, refl, sym, ap, ◌∙◌, inl, inr, List, [], ◌∷◌, ◌++◌}
use lazarus.Env.{Env}
use lazarus.Tables.{Db, JournalRow}
use lazarus.Journal.Written.{append_event-IsAppended, journal_row}
use lazarus.Guarantees.Commands.{Command, execute, execute_all}
use lazarus.Guarantees.Logged.{execute-IsLogged}

-- the rows of the journal stay, and new ones come after them
pub record IsExtended (db db' : Db) : Type 0 where
  pub rows : List JournalRow
  pub grown : db'.journal ≡ db.journal ++ rows

same-IsExtended : (db db' : Db) → db' ≡ db → IsExtended db db'
same-IsExtended db db' h = record {
  rows = [];
  grown = ap (λ (d : Db). d.journal) h ∙ sym (append-nil db.journal);
}

execute-IsExtended : (env : Env) (c : Command) (db : Db) → IsExtended db (execute env c db)
execute-IsExtended env c db = elim (execute-IsLogged env c db) [
  | inl same ↦ same-IsExtended db (execute env c db) same
  | inr l ↦ record {
    rows = journal_row l.event l.rows ∷ [];
    grown =
        ap (λ (d : Db). d.journal) (append_event-IsAppended _ _ _ l.appended).written
        ∙ ap (λ xs. xs ++ journal_row l.event l.rows ∷ []) l.same;
  }
]

-- Whatever calls follow, accepted or refused, the rows that the journal has stay its first rows.
pub execute_all-IsExtended :
    (env : Env) (cs : List Command) (db : Db) → IsExtended db (execute_all env cs db)
unfolding execute_all
execute_all-IsExtended env [] db = same-IsExtended db db refl
execute_all-IsExtended env (c ∷ cs) db =
    let one = execute-IsExtended env c db in
    let more = execute_all-IsExtended env cs (execute env c db) in
    record {
      rows = one.rows ++ more.rows;
      grown = more.grown ∙ rw (one.grown) (append_assoc db.journal one.rows more.rows);
    }
