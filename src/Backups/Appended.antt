-- ===== src/Backups/Appended.antt =====
-- What a recorded event of a backup leaves in the journal, and that the verification accepts it.
use lazarus.Base.{
  ℕ, ◌<◌, String, ◌≡◌, refl, ap, ◌∙◌, Bool, true, false, not, ◌&&◌, some, arith, ◌==◌, eq_refl,
}
use lazarus.Env.{Env}
use lazarus.Errors.{ok}
use lazarus.Model.{Event, Time, AuditContext, is_positive, is_zero}
use lazarus.Tables.{Db}
use lazarus.Json.{is_empty}
use lazarus.Payloads.Written.{print-is_empty}
use lazarus.Journal.{append_event, stored_event, or_system}
use lazarus.Journal.Written.{or_system-ne_empty}
use lazarus.Manifest.{
  BackupManifest, marshal_manifest, unmarshal_manifest, marshal_download, unmarshal_download,
  Download,
}
use lazarus.Replay.Shape.{validate_event_shape}
use lazarus.Verify.Global.{
  verify_global_event, check_global, is_created_payload, is_downloaded_payload,
}
use lazarus.Backups.{append_only, created_event, downloaded_event}

pub append_only-appended :
    (e : Event) (db db' : Db) (res : Unit {0})
    → append_only e db ≡ ok (res, db')
    → append_event e db ≡ ok db'
unfolding append_only
append_only-appended e db db' res h = ground (arith, h)

pub append_event-named :
    (e : Event) (db db' : Db) → append_event e db ≡ ok db' → (e.resource_id == "") ≡ false
unfolding append_event
append_event-named e db db' h = ground (arith, h)

-- what the verification asks of the manifest of a backup
abbrev pub is_complete : BackupManifest → Bool
is_complete m = not (m.sha256 == "") && is_positive m.bytes

-- A manifest whose number of bytes is positive and fits an int64 is read back as it was written.
pub unmarshal-marshal_manifest :
    (env : Env) (m : BackupManifest)
    → is_positive m.bytes ≡ true
    → unmarshal_manifest env (marshal_manifest env m) ≡ some m
unfolding unmarshal_manifest marshal_manifest is_positive
unmarshal-marshal_manifest env m h = ground (arith, env.parse-format m.created_at, h)

pub unmarshal-marshal_download :
    (m : BackupManifest) (artifact : String)
    → is_positive m.bytes ≡ true
    → unmarshal_download (marshal_download m artifact)
      ≡ some (record {
        filename = m.filename;
        sha256 = m.sha256;
        bytes = m.bytes;
        artifact = artifact;
      })
unfolding unmarshal_download marshal_download is_positive
unmarshal-marshal_download m artifact h = ground (arith, h)

abbrev decoded_as : (m : BackupManifest) (e : Event) → Bool
decoded_as m e =
    m.filename == e.resource_id && not (m.sha256 == "") && is_positive m.bytes && m.audit_recorded

created_payload :
    (env : Env) (e : Event) (m : BackupManifest)
    → unmarshal_manifest env e.payload ≡ some m
    → decoded_as m e ≡ true
    → is_created_payload env e ≡ true
unfolding is_created_payload
created_payload env e m h ok_fields = ground (arith, h, ok_fields)

downloaded_payload :
    (e : Event) (d : Download)
    → unmarshal_download e.payload ≡ some d
    → (d.filename == e.resource_id
        && not (d.sha256 == "")
        && is_positive d.bytes
        && not (d.artifact == ""))
      ≡ true
    → is_downloaded_payload e ≡ true
unfolding is_downloaded_payload
downloaded_payload e d h ok_fields = ground (arith, h, ok_fields)

stored-payload : (e : Event) → is_empty e.payload ≡ false → (stored_event e).payload ≡ e.payload
unfolding stored_event
stored-payload e h = rw h refl

manifest-is_empty : (env : Env) (m : BackupManifest) → is_empty (marshal_manifest env m) ≡ false
unfolding marshal_manifest
manifest-is_empty env m = print-is_empty _

download-is_empty :
    (m : BackupManifest) (artifact : String) → is_empty (marshal_download m artifact) ≡ false
unfolding marshal_download
download-is_empty m artifact = print-is_empty _

-- both checks of a global event
created-passes :
    (env : Env) (e : Event)
    → validate_event_shape e ≡ ok tt
    → (e.type == "backup.created") ≡ true
    → is_created_payload env e ≡ true
    → verify_global_event env e ≡ ok tt
unfolding verify_global_event check_global
created-passes env e shape type payload = ground (arith, shape, type, payload)

downloaded-passes :
    (env : Env) (e : Event)
    → validate_event_shape e ≡ ok tt
    → (e.type == "backup.created") ≡ false
    → (e.type == "backup.downloaded") ≡ true
    → is_downloaded_payload e ≡ true
    → verify_global_event env e ≡ ok tt
unfolding verify_global_event check_global
downloaded-passes env e shape other type payload = ground (arith, shape, other, type, payload)

module _ (env : Env) (m : BackupManifest) (audit : AuditContext) (key : ℕ) where
  -- the event as the journal gives it back
  abbrev read_created : Event
  read_created = record (stored_event (created_event env m audit)) { id = key }

  created_shape :
      0 < key
      → is_zero m.created_at ≡ false
      → (m.filename == "") ≡ false
      → validate_event_shape read_created ≡ ok tt
  unfolding validate_event_shape stored_event marshal_manifest
  created_shape positive_key dated named = ground (
    arith,
    positive_key,
    dated,
    named,
    or_system-ne_empty (or_system audit.request_id),
    or_system-ne_empty (or_system audit.actor),
    or_system-ne_empty (or_system audit.role),
  )

  pub created-verified :
      0 < key
      → is_zero m.created_at ≡ false
      → (m.filename == "") ≡ false
      → is_complete m ≡ true
      → verify_global_event env read_created ≡ ok tt
  unfolding stored_event
  created-verified positive_key dated named complete =
      let recorded : BackupManifest = record m { audit_recorded = true } in
      let stored : read_created.payload ≡ marshal_manifest env recorded =
        stored-payload (created_event env m audit) (manifest-is_empty env recorded) in
      let back : unmarshal_manifest env read_created.payload ≡ some recorded =
        ap (unmarshal_manifest env) stored
        ∙ unmarshal-marshal_manifest env recorded (ground (arith, complete)) in
      created-passes env read_created (created_shape positive_key dated named) refl (
        created_payload env read_created recorded back
          (ground (arith, complete, eq_refl m.filename)))

module _ (env : Env) (now : Time) (m : BackupManifest) (artifact : String) (audit : AuditContext)
    (key : ℕ) where
  abbrev read_downloaded : Event
  read_downloaded = record (stored_event (downloaded_event now m artifact audit)) { id = key }

  downloaded_shape :
      0 < key
      → is_zero now ≡ false
      → (m.filename == "") ≡ false
      → validate_event_shape read_downloaded ≡ ok tt
  unfolding validate_event_shape stored_event marshal_download
  downloaded_shape positive_key dated named = ground (
    arith,
    positive_key,
    dated,
    named,
    or_system-ne_empty (or_system audit.request_id),
    or_system-ne_empty (or_system audit.actor),
    or_system-ne_empty (or_system audit.role),
  )

  pub downloaded-verified :
      0 < key
      → is_zero now ≡ false
      → (m.filename == "") ≡ false
      → is_complete m ≡ true
      → (artifact == "") ≡ false
      → verify_global_event env read_downloaded ≡ ok tt
  unfolding stored_event
  downloaded-verified positive_key dated named complete chosen =
      let read : Download = record {
        filename = m.filename;
        sha256 = m.sha256;
        bytes = m.bytes;
        artifact = artifact;
      } in
      let stored : read_downloaded.payload ≡ marshal_download m artifact =
        stored-payload (downloaded_event now m artifact audit) (download-is_empty m artifact) in
      let back : unmarshal_download read_downloaded.payload ≡ some read =
        ap unmarshal_download stored
        ∙ unmarshal-marshal_download m artifact (ground (arith, complete)) in
      downloaded-passes env read_downloaded (downloaded_shape positive_key dated named) refl refl (
        downloaded_payload read_downloaded read back
          (ground (arith, complete, chosen, eq_refl m.filename)))
