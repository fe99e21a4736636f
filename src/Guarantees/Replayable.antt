-- ===== src/Guarantees/Replayable.antt =====
-- Whatever calls the store has served, its journal replays to its rows.
use lazarus.Base.{
  String, ◌≡◌, refl, Bool, true, false, eqb_refl, eq_refl, some, List, [], ◌∷◌, arith,
}
use lazarus.Env.{Env}
use lazarus.Errors.{ok}
use lazarus.Model.{Maintenance, Event}
use lazarus.Tables.Write.{write-keeps}
use lazarus.Journal.Written.{append_event-IsAppended}
use lazarus.Backups.{
  append_only, created_event, downloaded_event, record_backup_created, record_backup_download,
}
use lazarus.Backups.Appended.{append_only-appended}
use lazarus.Agreement.Unrelated.{unrelated-Consistent}
use lazarus.Tables.{Db, write, find_maintenance, find_capture, count_captures, targets_of}
use lazarus.Replay.{ReplayMaintenance, SavedCapture, start}
use lazarus.Verify.{load_capture_for_verify, events_of, replay_events, maintenance_matches, bool_eq}
use lazarus.Agreement.{Agrees, Consistent}
use lazarus.Agreement.Creation.{create_maintenance-Consistent}
use lazarus.Agreement.Capturing.{capture_maintenance-Consistent}
use lazarus.Agreement.MaintenanceChange.{transition_maintenance-Consistent}
use lazarus.Agreement.TargetChange.{transition_target-Consistent}
use lazarus.Agreement.Observation.{add_observation-Consistent}
use lazarus.Guarantees.Commands.{
  Command, create_call, capture_call, maintenance_call, target_call, observation_call,
  backup_created_call, backup_download_call, execute, execute_all, empty_db,
}

append_only-Consistent :
    (env : Env) (e : Event) (db : Db)
    → e.maintenance_id ≡ ""
    → Consistent env db
    → Consistent env (write db (append_only e)).1
append_only-Consistent env e db free old =
    write-keeps (Consistent env) db (append_only e) old λ res db' done.
      rw ((append_event-IsAppended e db db' (append_only-appended e db db' res done)).written)
        (unrelated-Consistent e db free env old)

-- Every call keeps the rows, the captures and the journal consistent.
pub execute-Consistent :
    (env : Env) (c : Command) (db : Db) → Consistent env db → Consistent env (execute env c db)
unfolding execute record_backup_created record_backup_download
execute-Consistent env (create_call now m audit) db old =
    create_maintenance-Consistent env now m audit db old
execute-Consistent env (capture_call stamp now id capture audit) db old =
    capture_maintenance-Consistent env stamp now id capture audit db old
execute-Consistent env (maintenance_call now id change precondition audit) db old =
    transition_maintenance-Consistent env now id change precondition audit db old
execute-Consistent env (target_call now mid id change precondition audit) db old =
    transition_target-Consistent env now mid id change precondition audit db old
execute-Consistent env (observation_call now mid id payload precondition audit) db old =
    add_observation-Consistent env now mid id payload precondition audit db old
execute-Consistent env (backup_created_call m audit) db old =
    append_only-Consistent env (created_event env m audit) db refl old
execute-Consistent env (backup_download_call now m artifact audit) db old =
    append_only-Consistent env (downloaded_event now m artifact audit) db refl old

execute_all-Consistent :
    (env : Env) (cs : List Command) (db : Db)
    → Consistent env db
    → Consistent env (execute_all env cs db)
unfolding execute_all
execute_all-Consistent env [] db old = old
execute_all-Consistent env (c ∷ cs) db old =
    execute_all-Consistent env cs (execute env c db) (execute-Consistent env c db old)

pub empty-Consistent : (env : Env) → Consistent env empty_db
unfolding find_maintenance find_capture count_captures targets_of events_of
empty-Consistent env = record {
  at = λ id m h. cc;
  unowned = λ id _. record {
    uncaptured = refl;
    uncounted = refl;
    untargeted = refl;
    unjournaled = refl;
    unexercised = refl;
  };
}

-- After any calls on a new database, in any order, accepted or refused, the tables are consistent.
pub reachable-Consistent :
    (env : Env) (cs : List Command) → Consistent env (execute_all env cs empty_db)
reachable-Consistent env cs = execute_all-Consistent env cs empty_db (empty-Consistent env)

bool_eq_refl : (b : Bool) → bool_eq b b ≡ true
unfolding bool_eq
bool_eq_refl true = refl
bool_eq_refl false = refl

-- what the verification finds for a maintenance
pub record IsReplayed (env : Env) (db : Db) (m : Maintenance) : Type 0 where
  pub saved : SavedCapture
  pub replay : ReplayMaintenance
  pub loaded : load_capture_for_verify env m.id db ≡ ok saved
  pub replayed : replay_events env saved start (events_of m.id db) ≡ ok replay
  pub matches : maintenance_matches replay saved m ≡ true

pub Agrees-IsReplayed :
    (env : Env) (db : Db) (m : Maintenance) → Agrees env db m → IsReplayed env db m
unfolding maintenance_matches
Agrees-IsReplayed env db m a = record {
  saved = a.saved;
  replay = a.replay;
  loaded = a.loaded;
  replayed = a.replayed;
  matches =
      rw (a.state, a.revision, a.captured)
        (ground
          (arith, eq_refl m.state, eqb_refl m.version, bool_eq_refl a.saved.present, a.created));
}

-- After any calls on a new database, the checks that the verification makes of a stored maintenance
-- pass up to its targets: its capture is intact, the replay accepts each of its events, and ends
-- in the state, the version, the capture and the creation of its row.
pub reachable-IsReplayed :
    (env : Env) (cs : List Command) (id : String) (m : Maintenance)
    → find_maintenance id (execute_all env cs empty_db) ≡ some m
    → IsReplayed env (execute_all env cs empty_db) m
reachable-IsReplayed env cs id m found =
    Agrees-IsReplayed env (execute_all env cs empty_db) m
      ((reachable-Consistent env cs).at id m found)
