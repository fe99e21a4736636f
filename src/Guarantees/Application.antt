-- ===== src/Guarantees/Application.antt =====
-- `verifyApplicationData` of internal/store/verify.go accepts every database that the store makes.
use lazarus.Base.{
  String, ◌≡◌, refl, sym, ap, ◌∙◌, inl, inr, Bool, true, ◌&&◌, List, [], ◌∷◌, map, arith, ◌==◌,
  eq_refl, all, find, is_some, Option-cases,
}
use lazarus.Env.{Env}
use lazarus.Errors.{ok}
use lazarus.Model.{Event, Maintenance}
use lazarus.Tables.{Db, write, find_maintenance}
use lazarus.Tables.Keys.{find-holds_id}
use lazarus.Tables.Write.{write-keeps}
use lazarus.Journal.Written.{append_event-IsAppended}
use lazarus.Backups.{
  append_only, created_event, downloaded_event, record_backup_created, record_backup_download,
}
use lazarus.Backups.Appended.{append_only-appended}
use lazarus.Agreement.{Consistent}
use lazarus.Exclusion.{Exclusive, Exclusive-verified}
use lazarus.Exclusion.Operations.{
  row-Exclusive, add_observation-Exclusive, transition_target-Exclusive,
  transition_maintenance-Exclusive,
}
use lazarus.Exclusion.Capturing.{capture_maintenance-Exclusive}
use lazarus.Exclusion.Creation.{create_maintenance-Exclusive}
use lazarus.Verify.{verify_maintenance_replay, verify_lock_exclusivity}
use lazarus.Verify.Global.{verify_global_events}
use lazarus.Verify.Application.{insert_id, sort_ids, verify_each, verify_application_data}
use lazarus.Guarantees.Commands.{
  Command, backup_created_call, backup_download_call, create_call, capture_call, maintenance_call,
  target_call, observation_call, execute, execute_all, empty_db,
}
use lazarus.Guarantees.Replayable.{execute-Consistent, empty-Consistent, reachable-Consistent}
use lazarus.Guarantees.Verified.{is_timely, Agrees-verified}
use lazarus.Guarantees.Global.{is_sound, execute_all-global}

append_only-Exclusive :
    (e : Event) (db : Db) → Exclusive db → Exclusive (write db (append_only e)).1
append_only-Exclusive e db old = write-keeps Exclusive db (append_only e) old λ res db' done.
    rw ((append_event-IsAppended e db db' (append_only-appended e db db' res done)).written)
      (row-Exclusive e db old)

-- Every call on consistent tables keeps the locks exclusive.
execute-Exclusive :
    (env : Env) (c : Command) (db : Db)
    → Consistent env db
    → Exclusive db
    → Exclusive (execute env c db)
unfolding execute record_backup_created record_backup_download
execute-Exclusive env (create_call now m audit) db consistent old =
    create_maintenance-Exclusive env now m audit db consistent old
execute-Exclusive env (capture_call stamp now id capture audit) db consistent old =
    capture_maintenance-Exclusive env stamp now id capture audit db old
execute-Exclusive env (maintenance_call now id change precondition audit) db consistent old =
    transition_maintenance-Exclusive now id change precondition audit db old
execute-Exclusive env (target_call now mid id change precondition audit) db consistent old =
    transition_target-Exclusive now mid id change precondition audit db old
execute-Exclusive env (observation_call now mid id payload precondition audit) db consistent old =
    add_observation-Exclusive now mid id payload precondition audit db old
execute-Exclusive env (backup_created_call m audit) db consistent old =
    append_only-Exclusive (created_event env m audit) db old
execute-Exclusive env (backup_download_call now m artifact audit) db consistent old =
    append_only-Exclusive (downloaded_event now m artifact audit) db old

execute_all-Exclusive :
    (env : Env) (cs : List Command) (db : Db)
    → Consistent env db
    → Exclusive db
    → Exclusive (execute_all env cs db)
unfolding execute_all
execute_all-Exclusive env [] db consistent old = old
execute_all-Exclusive env (c ∷ cs) db consistent old =
    execute_all-Exclusive env cs (execute env c db) (execute-Consistent env c db consistent)
      (execute-Exclusive env c db consistent old)

-- After any calls on a new database, no lock key is active in two maintenances.
pub reachable-exclusive :
    (env : Env) (cs : List Command) → verify_lock_exclusivity (execute_all env cs empty_db) ≡ ok tt
reachable-exclusive env cs =
    Exclusive-verified (execute_all env cs empty_db)
      (execute_all-Exclusive env cs empty_db (empty-Consistent env) refl)

all-insert_id :
    (p : String → Bool) (id : String) (ids : List String)
    → all p (insert_id id ids) ≡ (p id && all p ids)
unfolding insert_id
all-insert_id p id [] = refl
all-insert_id p id (other ∷ rest) = ground (arith, all-insert_id p id rest)

all-sort_ids : (p : String → Bool) (ids : List String) → all p (sort_ids ids) ≡ all p ids
unfolding sort_ids
all-sort_ids p [] = refl
all-sort_ids p (id ∷ ids) = ground (arith, all-insert_id p id (sort_ids ids), all-sort_ids p ids)

-- a row has the id
abbrev has_row : List Maintenance → String → Bool
has_row ms id = is_some (find (λ m. m.id == id) ms)

has_row-later :
    (x : Maintenance) (ms : List Maintenance) (ids : List String)
    → all (has_row ms) ids ≡ true
    → all (has_row (x ∷ ms)) ids ≡ true
has_row-later x ms [] h = refl
has_row-later x ms (id ∷ ids) h = ground (arith, h, has_row-later x ms ids)

has_row-all : (ms : List Maintenance) → all (has_row ms) (map (λ m. m.id) ms) ≡ true
has_row-all [] = refl
has_row-all (x ∷ ms) =
    ground (arith, eq_refl x.id, has_row-later x ms (map (λ m. m.id) ms), has_row-all ms)

verify_maintenance_replay-Consistent :
    (env : Env) (db : Db) (id : String)
    → all (is_timely env) db.captures ≡ true
    → Consistent env db
    → is_some (find_maintenance id db) ≡ true
    → verify_maintenance_replay env id db ≡ ok tt
verify_maintenance_replay-Consistent env db id timely consistent there =
    elim (Option-cases (find_maintenance id db)) [
      | inl gone ↦ ground (arith, there, gone)
      | inr (m, found) ↦
          let same : m.id ≡ id = find-holds_id id db found in
          ap (λ i. verify_maintenance_replay env i db) (sym same)
          ∙ Agrees-verified env db m timely (ap (λ i. find_maintenance i db) same ∙ found)
              (consistent.at id m found)
    ]

verify_each-Consistent :
    (env : Env) (ids : List String) (db : Db)
    → all (is_timely env) db.captures ≡ true
    → Consistent env db
    → all (λ id. is_some (find_maintenance id db)) ids ≡ true
    → verify_each env ids db ≡ ok tt
unfolding verify_each
verify_each-Consistent env [] db timely consistent there = refl
verify_each-Consistent env (id ∷ ids) db timely consistent there =
    rw (verify_maintenance_replay-Consistent env db id timely consistent (ground (arith, there)))
      (verify_each-Consistent env ids db timely consistent (ground (arith, there)))

stored_ids :
    (db : Db)
    → all (λ id. is_some (find_maintenance id db)) (sort_ids (map (λ m. m.id) db.maintenances))
      ≡ true
unfolding find_maintenance
stored_ids db =
    all-sort_ids (has_row db.maintenances) (map (λ m. m.id) db.maintenances)
    ∙ has_row-all db.maintenances

-- After any calls on a new database, accepted or refused, among them records of backups with a
-- digest, a size and a name, the whole check of the application's data passes: the locks, the
-- replay of every maintenance against its row, its capture and its targets, and the global events.
-- It does so where each `observed_at` of the captures that were saved is, in UTC, an instant of
-- the years 0 to 9999.
pub reachable-verified :
    (env : Env) (cs : List Command)
    → all is_sound cs ≡ true
    → all (is_timely env) (execute_all env cs empty_db).captures ≡ true
    → verify_application_data env (execute_all env cs empty_db) ≡ ok tt
unfolding verify_application_data
reachable-verified env cs sound timely =
    let db = execute_all env cs empty_db in
    ground (
      arith,
      reachable-exclusive env cs,
      verify_each-Consistent env (sort_ids (map (λ m. m.id) db.maintenances)) db timely
          (reachable-Consistent env cs) (stored_ids db),
      execute_all-global env cs empty_db sound empty_global,
    )
  where
    empty_global : verify_global_events env empty_db ≡ ok tt
    empty_global = refl
