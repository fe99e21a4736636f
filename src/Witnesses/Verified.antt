-- ===== src/Witnesses/Verified.antt =====
-- The theorems on the verification, the lifecycle and the backups at concrete values.
use lazarus.Base.{◌≡◌, ◌⊎◌, String, refl, false, some, List, [], ◌∷◌}
use lazarus.Errors.{ok}
use lazarus.Verify.{verify_lock_exclusivity}
use lazarus.Verify.Application.{verify_application_data}
use lazarus.Model.{is_positive, next_version}
use lazarus.Text.{valid_id, trim_space, sql_length}
use lazarus.Lifecycle.{
  valid_maintenance_state, valid_maintenance_transition, is_maintenance_terminal,
}
use lazarus.Canonical.{canonical_json_default, canonical_json_object}
use lazarus.Precondition.{require}
use lazarus.Tables.{
  find_maintenance, count_captures, targets_of, list_targets, insert_maintenance, insert_capture,
  insert_target, update_maintenance, bump_targets, lock_holder, insert_event,
}
use lazarus.Mutations.Create.{
  create_maintenance, checked_creation, new_maintenance, marshal_maintenance,
}
use lazarus.Mutations.Capture.{
  capture_maintenance, checked_capture, capture_maintenance_tx, record_capture, insert_targets,
  check_locks,
}
use lazarus.Mutations.Capture.Parse.{parse_capture_targets}
use lazarus.Mutations.Change.{
  transition_maintenance, checked_maintenance_change, transition_maintenance_tx,
  maintenance_event_type, maintenance_change_allowed, record_maintenance_change,
}
use lazarus.Backups.{record_backup_created, record_backup_download}
use lazarus.Json.{print, json_size}
use lazarus.Journal.{append_event, event_payload}
use lazarus.Scenario.{unary, count}
use lazarus.Manifest.{BackupManifest, marshal_manifest, unmarshal_manifest}
use lazarus.Backups.Appended.{unmarshal-marshal_manifest}
use lazarus.Lifecycle.{valid_maintenance_state}
use lazarus.Lifecycle.Paths.{Reaches, maintenance_paths}
use lazarus.Guarantees.Commands.{
  Command, backup_created_call, backup_download_call, execute_all, empty_db,
}
use lazarus.Guarantees.Verified.{is_timely}
use lazarus.Guarantees.Application.{reachable-exclusive, reachable-verified}
use lazarus.Base.{all, true}
use lazarus.Backups.Artifact.{artifact_database, IsArtifact, artifact_database-IsArtifact}
use lazarus.Backups.Rotation.{
  Entry, ends_db, backups_in, newest_first, insert_newest, rotate_old, rotate_backups,
}
use lazarus.Backups.Cleanup.{sweep, is_temp, is_incomplete, is_orphan, cleanup_backup_temps}
use lazarus.Backups.Cleanup.Complete.{is_complete, cleanup_backup_temps-is_complete}
use lazarus.Scenario.{unary_env, admin, creation, capturing, stopping}

abbrev nightly : BackupManifest
nightly = record {
  filename = "lazarus-1.db";
  created_at = 9;
  bytes = 4096;
  sha256 = "digest";
  sqlite_version = "3.46.0";
  integrity_check = "ok";
  foreign_keys = "ok";
  application = "ok";
  audit_recorded = false;
}

abbrev all_calls : List Command
all_calls =
    creation
    ∷ capturing
    ∷ stopping
    ∷ backup_created_call nightly admin
    ∷ backup_download_call 10 nightly "lazarus-1.db" admin
    ∷ []

calls_timely : all (is_timely unary_env) (execute_all unary_env all_calls empty_db).captures ≡ true
unfolding execute_all create_maintenance checked_creation new_maintenance marshal_maintenance
    capture_maintenance checked_capture capture_maintenance_tx record_capture insert_targets
    check_locks parse_capture_targets transition_maintenance checked_maintenance_change
    transition_maintenance_tx maintenance_event_type maintenance_change_allowed
    record_maintenance_change append_event event_payload find_maintenance insert_maintenance
    insert_capture insert_target update_maintenance bump_targets list_targets lock_holder
    insert_event canonical_json_default canonical_json_object valid_id trim_space sql_length
    is_positive next_version valid_maintenance_state valid_maintenance_transition
    is_maintenance_terminal require print count_captures targets_of unary count json_size
    record_backup_created record_backup_download
calls_timely = refl

reachable-verified_example :
    verify_application_data unary_env (execute_all unary_env all_calls empty_db) ≡ ok tt
unfolding is_positive
reachable-verified_example = reachable-verified unary_env all_calls refl calls_timely

reachable-exclusive_example :
    verify_lock_exclusivity (execute_all unary_env all_calls empty_db) ≡ ok tt
reachable-exclusive_example = reachable-exclusive unary_env all_calls

abbrev failed_state : String
failed_state = "failed"

maintenance_paths_example : Reaches failed_state "completed" ⊎ (failed_state ≡ "cancelled")
unfolding valid_maintenance_state
maintenance_paths_example = maintenance_paths failed_state refl

unmarshal-marshal_manifest_example :
    unmarshal_manifest unary_env (marshal_manifest unary_env nightly) ≡ some nightly
unfolding is_positive
unmarshal-marshal_manifest_example = unmarshal-marshal_manifest unary_env nightly refl

abbrev backup_entry : String → Entry
backup_entry name = record { name = name; is_dir = false; modified = 1 }

-- two backups, and the manifest of the older one
abbrev backup_dir : List Entry
backup_dir =
    backup_entry "lazarus-1.db"
    ∷ backup_entry "lazarus-1.db.manifest.json"
    ∷ backup_entry "lazarus-2.db"
    ∷ []

-- the older backup goes, and its manifest
rotated : (rotate_backups (λ _. false) 1 0 9 backup_dir).1 ≡ backup_entry "lazarus-2.db" ∷ []
unfolding rotate_backups backups_in newest_first insert_newest rotate_old
rotated = refl

artifact_database-IsArtifact_example : IsArtifact "lazarus-1.db.manifest.json" "lazarus-1.db"
unfolding artifact_database
artifact_database-IsArtifact_example =
    artifact_database-IsArtifact "lazarus-1.db.manifest.json" refl

-- what a stopped copy leaves behind: a temporary file, a backup without its manifest, a manifest
-- without its backup
abbrev littered_dir : List Entry
littered_dir =
    backup_entry "lazarus-3.db.tmp-wal"
    ∷ backup_entry "lazarus-3.db"
    ∷ backup_entry "lazarus-1.db"
    ∷ backup_entry "lazarus-4.db.manifest.json"
    ∷ backup_entry "lazarus-1.db.manifest.json"
    ∷ []

cleared :
    (cleanup_backup_temps (λ _. false) littered_dir).1
    ≡ backup_entry "lazarus-1.db" ∷ backup_entry "lazarus-1.db.manifest.json" ∷ []
unfolding cleanup_backup_temps sweep is_temp is_incomplete is_orphan
cleared = refl

cleanup_backup_temps-is_complete_example :
    is_complete "lazarus-1.db" (cleanup_backup_temps (λ _. false) littered_dir).1 ≡ true
unfolding ends_db
cleanup_backup_temps-is_complete_example =
    cleanup_backup_temps-is_complete (λ _. false) "lazarus-1.db" littered_dir refl refl
