-- ===== src/Manifest.antt =====
-- The JSON of backups: `BackupManifest` of internal/store/store.go, and the detail of a
-- `backup.downloaded` event in internal/store/artifacts.go and verify.go.
use lazarus.Base.{ℕ, String, Bool, false, Option, none, some}
use lazarus.Json.{Json, Raw, null, bool, num, obj, str, field, end, print}
use lazarus.Json.Decode.{object_fields, decode_field, assign_string, assign_int64}
use lazarus.Env.{Env}
use lazarus.Model.{Time}
use lazarus.Replay.Created.{assign_instant, ◌>>=◌}

pub record BackupManifest : Type 0 where
  pub filename : String
  pub created_at : Time
  pub bytes : ℕ
  pub sha256 : String
  pub sqlite_version : String
  pub integrity_check : String
  pub foreign_keys : String
  pub application : String
  pub audit_recorded : Bool

-- json.Marshal of a manifest
unfoldable pub marshal_manifest : Env → BackupManifest → Raw
unfolding print
marshal_manifest env m = print (
    obj (
      field "filename" (str m.filename) (
        field "created_at" (str (env.format_time m.created_at)) (
          field "bytes" (num m.bytes) (
            field "sha256" (str m.sha256) (
              field "sqlite_version" (str m.sqlite_version) (
                field "integrity_check" (str m.integrity_check) (
                  field "foreign_key_check" (str m.foreign_keys) (
                    field "application_check" (str m.application)
                      (field "audit_recorded" (bool m.audit_recorded) end))))))))))

unfoldable pub assign_bool : Json → Bool → Option Bool
assign_bool (bool b) old = some b
assign_bool null old = some old
assign_bool _ old = none

-- json.Unmarshal into a BackupManifest
unfoldable pub unmarshal_manifest : Env → Raw → Option BackupManifest
unfolding object_fields decode_field assign_string assign_instant assign_int64 assign_bool
unmarshal_manifest env payload = do
  fields ← object_fields payload.value
  filename ← decode_field assign_string "filename" fields ""
  created_at ← decode_field (assign_instant env) "created_at" fields 0
  bytes ← decode_field assign_int64 "bytes" fields 0
  sha256 ← decode_field assign_string "sha256" fields ""
  sqlite_version ← decode_field assign_string "sqlite_version" fields ""
  integrity_check ← decode_field assign_string "integrity_check" fields ""
  foreign_keys ← decode_field assign_string "foreign_key_check" fields ""
  application ← decode_field assign_string "application_check" fields ""
  audit_recorded ← decode_field assign_bool "audit_recorded" fields false
  some (record {
    filename = filename;
    created_at = created_at;
    bytes = bytes;
    sha256 = sha256;
    sqlite_version = sqlite_version;
    integrity_check = integrity_check;
    foreign_keys = foreign_keys;
    application = application;
    audit_recorded = audit_recorded;
  })

-- json.Marshal of a map sorts its keys
unfoldable pub marshal_download : BackupManifest → String → Raw
unfolding print
marshal_download m artifact = print (
    obj (
      field "artifact" (str artifact) (
        field "bytes" (num m.bytes)
          (field "filename" (str m.filename) (field "sha256" (str m.sha256) end)))))

-- the detail of a download, as the verification reads it
pub record Download : Type 0 where
  pub filename : String
  pub sha256 : String
  pub bytes : ℕ
  pub artifact : String

unfoldable pub unmarshal_download : Raw → Option Download
unfolding object_fields decode_field assign_string assign_int64
unmarshal_download payload = do
  fields ← object_fields payload.value
  filename ← decode_field assign_string "filename" fields ""
  sha256 ← decode_field assign_string "sha256" fields ""
  bytes ← decode_field assign_int64 "bytes" fields 0
  artifact ← decode_field assign_string "artifact" fields ""
  some (record { filename = filename; sha256 = sha256; bytes = bytes; artifact = artifact })
