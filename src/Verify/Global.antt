-- ===== src/Verify/Global.antt =====
-- `verifyGlobalEvents` of internal/store/verify.go: the events that name no maintenance.
use lazarus.Base.{
  Bool, true, false, not, ◌&&◌, ◌==◌, none, some, List, [], ◌∷◌, map, select, if◌then◌else◌,
}
use lazarus.Env.{Env}
use lazarus.Errors.{Result, ok, err, corrupt, guard, ◌>>◌}
use lazarus.Model.{Event, is_positive}
use lazarus.Tables.{Db, JournalRow}
use lazarus.Journal.{scan_event}
use lazarus.Manifest.{unmarshal_manifest, unmarshal_download}
use lazarus.Replay.Shape.{validate_event_shape}
use lazarus.Verify.{or_corrupt}

-- maintenance_id IS NULL
abbrev pub is_global : JournalRow → Bool
is_global row = elim row.maintenance_id [ none ↦ true | some _ ↦ false ]

unfoldable pub global_events : Db → List Event
global_events db = map scan_event (select is_global db.journal)

-- a payload of backup.created names the event's backup
unfoldable pub is_created_payload : Env → Event → Bool
unfolding unmarshal_manifest
is_created_payload env e = elim (unmarshal_manifest env e.payload) [
  | none ↦ false
  | some m ↦
      m.filename == e.resource_id && not (m.sha256 == "") && is_positive m.bytes && m.audit_recorded
]

-- a payload of backup.downloaded, too
unfoldable pub is_downloaded_payload : Event → Bool
unfolding unmarshal_download
is_downloaded_payload e = elim (unmarshal_download e.payload) [
  | none ↦ false
  | some d ↦
      d.filename == e.resource_id
      && not (d.sha256 == "")
      && is_positive d.bytes
      && not (d.artifact == "")
]

-- the switch over the types of global events
unfoldable pub check_global : Env → Event → Result (Unit {0})
unfolding is_created_payload is_downloaded_payload
check_global env e =
    if e.type == "backup.created"
    then guard (is_created_payload env e) corrupt
    else if e.type == "backup.downloaded"
    then guard (is_downloaded_payload e) corrupt
    else err corrupt

unfoldable pub verify_global_event : Env → Event → Result (Unit {0})
unfolding check_global
verify_global_event env e = do or_corrupt (validate_event_shape e); check_global env e

-- the loop over the events
unfoldable pub verify_each_global : Env → List Event → Result (Unit {0})
unfolding verify_global_event
verify_each_global env [] = ok tt
verify_each_global env (e ∷ es) = do verify_global_event env e; verify_each_global env es

unfoldable pub verify_global_events : Env → Db → Result (Unit {0})
unfolding verify_each_global global_events
verify_global_events env db = verify_each_global env (global_events db)
