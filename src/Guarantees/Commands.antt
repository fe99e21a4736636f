-- ===== src/Guarantees/Commands.antt =====
-- The operations of the store one after another, as its mutex lets them run.
use lazarus.Base.{String, List, [], ◌∷◌}
use lazarus.Json.{Raw}
use lazarus.Env.{Env}
use lazarus.Model.{Time, AuditContext, StateChange, Maintenance, Capture}
use lazarus.Precondition.{VersionPrecondition}
use lazarus.Tables.{Db}
use lazarus.Mutations.Create.{create_maintenance}
use lazarus.Mutations.Capture.{capture_maintenance}
use lazarus.Mutations.Change.{transition_maintenance}
use lazarus.Mutations.Target.{transition_target}
use lazarus.Mutations.Observe.{add_observation}
use lazarus.Manifest.{BackupManifest}
use lazarus.Backups.{record_backup_created, record_backup_download}

-- a call of an operation, with the clock that it reads
pub data Command : Type 0 where
  create_call : Time → Maintenance → AuditContext → Command
  capture_call : Time → Time → String → Capture → AuditContext → Command
  maintenance_call : Time → String → StateChange → VersionPrecondition → AuditContext → Command
  target_call : Time → String → String → StateChange → VersionPrecondition → AuditContext → Command
  observation_call : Time → String → String → Raw → VersionPrecondition → AuditContext → Command
  backup_created_call : BackupManifest → AuditContext → Command
  backup_download_call : Time → BackupManifest → String → AuditContext → Command

-- the tables after a call, accepted or refused
unfoldable pub execute : Env → Command → Db → Db
execute env (create_call now m audit) db = (create_maintenance env now m audit db).1
execute env (capture_call stamp now id capture audit) db =
    (capture_maintenance env stamp now id capture audit db).1
execute env (maintenance_call now id change precondition audit) db =
    (transition_maintenance now id change precondition audit db).1
execute env (target_call now mid id change precondition audit) db =
    (transition_target now mid id change precondition audit db).1
execute env (observation_call now mid id payload precondition audit) db =
    (add_observation now mid id payload precondition audit db).1
execute env (backup_created_call m audit) db = (record_backup_created env m audit db).1
execute env (backup_download_call now m artifact audit) db =
    (record_backup_download now m artifact audit db).1

unfoldable pub execute_all : Env → List Command → Db → Db
unfolding execute
execute_all env [] db = db
execute_all env (c ∷ cs) db = execute_all env cs (execute env c db)

-- the tables of a new database
abbrev pub empty_db : Db
empty_db = record { maintenances = []; captures = []; targets = []; journal = [] }
