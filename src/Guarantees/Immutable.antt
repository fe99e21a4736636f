-- ===== src/Guarantees/Immutable.antt =====
-- The captures that are saved stay, whatever calls follow.
use lazarus.Base.{String, ◌≡◌, ap, ◌∙◌, inl, inr, some, List, [], ◌∷◌, ◌==◌, find, find-append_some}
use lazarus.Env.{Env}
use lazarus.Model.{Capture}
use lazarus.Tables.{Db, find_capture}
use lazarus.Journal.Written.{append_event-IsAppended}
use lazarus.Guarantees.Commands.{Command, execute, execute_all}
use lazarus.Guarantees.Logged.{execute-IsLogged}

execute-find_capture :
    (env : Env) (c : Command) (db : Db) (id : String) (capture : Capture)
    → find_capture id db ≡ some capture
    → find_capture id (execute env c db) ≡ some capture
unfolding find_capture
execute-find_capture env c db id capture h = elim (execute-IsLogged env c db) [
  | inl same ↦ ap (find_capture id) same ∙ h
  | inr l ↦
      ap (find (λ (x : Capture). x.maintenance_id == id)) (
        ap (λ (d : Db). d.captures) (append_event-IsAppended _ _ _ l.appended).written ∙ l.captured)
      ∙ find-append_some (λ (x : Capture). x.maintenance_id == id) db.captures l.captures h
]

-- Whatever calls follow, accepted or refused, the capture of a maintenance stays the one that was
-- saved first: none replaces it, removes it or changes it.
pub execute_all-find_capture :
    (env : Env) (cs : List Command) (db : Db) (id : String) (capture : Capture)
    → find_capture id db ≡ some capture
    → find_capture id (execute_all env cs db) ≡ some capture
unfolding execute_all
execute_all-find_capture env [] db id capture h = h
execute_all-find_capture env (c ∷ cs) db id capture h =
    execute_all-find_capture env cs (execute env c db) id capture
      (execute-find_capture env c db id capture h)
