-- ===== src/Backups.antt =====
-- The journal's part of a backup: `RecordBackupCreated` of internal/store/backup.go and `RecordBackupDownload` of
-- internal/store/artifacts.go.
pub mod Appended
pub mod Rotation
pub mod Artifact
pub mod Cleanup
use lazarus.Base.{String, true}
use lazarus.Json.{Raw}
use lazarus.Env.{Env}
use lazarus.Errors.{Result, ok, err, ◌>>=◌}
use lazarus.Model.{Time, AuditContext, Event}
use lazarus.Tables.{Db, write}
use lazarus.Journal.{append_event, audit_values}
use lazarus.Manifest.{BackupManifest, marshal_manifest, marshal_download}

-- an event of a backup names no maintenance
abbrev pub backup_event : String → Time → String → AuditContext → Raw → Event
backup_event type now filename audit payload = record {
  id = 0;
  type = type;
  occurred_at = now;
  request_id = audit.request_id;
  actor = audit.actor;
  role = audit.role;
  resource_type = "backup";
  resource_id = filename;
  maintenance_id = "";
  target_id = "";
  from_state = "";
  to_state = "";
  from_version = 0;
  to_version = 0;
  aggregate_version = 0;
  payload = payload;
}

-- the event that `RecordBackupCreated` appends; its manifest says that it is recorded
abbrev pub created_event : Env → BackupManifest → AuditContext → Event
created_event env m audit =
    backup_event "backup.created" m.created_at m.filename (audit_values audit)
      (marshal_manifest env (record m { audit_recorded = true }))

-- a transaction that appends one event
unfoldable pub append_only : Event → Db → Result (Unit {0} × Db)
append_only e db = do written ← append_event e db; ok (tt, written)

unfoldable pub record_backup_created :
    Env → BackupManifest → AuditContext → Db → Result (Unit {0}) × Db
unfolding write append_only marshal_manifest audit_values
record_backup_created env m audit db = write db (append_only (created_event env m audit))

abbrev pub downloaded_event : Time → BackupManifest → String → AuditContext → Event
downloaded_event now m artifact audit =
    backup_event "backup.downloaded" now m.filename (audit_values audit)
      (marshal_download m artifact)

unfoldable pub record_backup_download :
    Time → BackupManifest → String → AuditContext → Db → Result (Unit {0}) × Db
unfolding write append_only marshal_download audit_values
record_backup_download now m artifact audit db =
    write db (append_only (downloaded_event now m artifact audit))
