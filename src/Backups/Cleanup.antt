-- ===== src/Backups/Cleanup.antt =====
-- `cleanupBackupTemps` and `isBackupTempName` of internal/store/backup.go, over the entries of a
-- directory. os.Remove may fail, for the names that `fails` accepts; reading the directory and
-- os.Stat succeed.
pub mod Names
pub mod Complete
use text.Mathlib.Text.{starts_with}
use lazarus.Base.{String, Bool, true, false, not, ◌&&◌, ◌||◌, ◌==◌, if◌then◌else◌, List, [], ◌∷◌}
use lazarus.Backups.Rotation.{Entry, is_backup_file, manifest_name, has_entry, remove_entry}
use lazarus.Backups.Artifact.{ends_manifest, trim_manifest}

-- strings.HasSuffix(name, suffix) for one of the four suffixes
unfoldable pub is_backup_temp_name : String → Bool
is_backup_temp_name String.[] = false
is_backup_temp_name (String.◌∷◌ c s) =
    String.◌∷◌ c s == ".tmp"
    || String.◌∷◌ c s == ".tmp-wal"
    || String.◌∷◌ c s == ".tmp-shm"
    || String.◌∷◌ c s == ".tmp-journal"
    || is_backup_temp_name s

abbrev is_named : Entry → Bool
is_named e = not e.is_dir && starts_with e.name "lazarus-"

-- a loop over entries that were read before: whether it ends, and the directory
unfoldable pub sweep :
    (String → Bool) → (Entry → List Entry → Bool) → List Entry → List Entry → Bool × List Entry
sweep fails stale [] dir = (true, dir)
sweep fails stale (e ∷ es) dir =
    let passed = sweep fails stale es dir in
    let removed = sweep fails stale es (remove_entry e.name dir) in
    if stale e dir then (if fails e.name then (false, dir) else removed) else passed

-- the three tests: a temporary file, a backup without its manifest, a manifest without its backup
unfoldable pub is_temp : Entry → List Entry → Bool
unfolding is_backup_temp_name
is_temp e dir = is_named e && is_backup_temp_name e.name

unfoldable pub is_incomplete : Entry → List Entry → Bool
unfolding is_backup_file
is_incomplete e dir = is_backup_file e && not (has_entry (manifest_name e.name) dir)

unfoldable pub is_orphan : Entry → List Entry → Bool
unfolding ends_manifest trim_manifest
is_orphan e dir = is_named e && ends_manifest e.name && not (has_entry (trim_manifest e.name) dir)

-- the next loop, if the one before ended
abbrev pub then_sweep :
    (String → Bool) → (Entry → List Entry → Bool) → Bool × List Entry → Bool × List Entry
then_sweep fails stale (false, dir) = (false, dir)
then_sweep fails stale (true, dir) = sweep fails stale dir dir

unfoldable pub cleanup_backup_temps : (String → Bool) → List Entry → Bool × List Entry
unfolding sweep is_temp is_incomplete is_orphan
cleanup_backup_temps fails dir =
    then_sweep fails is_orphan (then_sweep fails is_incomplete (sweep fails is_temp dir dir))
