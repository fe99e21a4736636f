-- ===== src/Mutations/Capture/Parse.antt =====
-- `captureTarget` and `parseCaptureTargets` of internal/store/mutations.go.
use Prim.Native.String.{len}
use lazarus.Base.{
  ◌*◌, String, Bool, ◌||◌, ◌==◌, ltb, if◌then◌else◌, Option, none, some, List, [], ◌∷◌, any,
}
use lazarus.Text.{valid_id, trim_space}
use lazarus.Json.{Json, Items, Raw, null, str, arr, nil, cons, is_empty}
use lazarus.Json.Decode.{object_fields, decode_field, assign_string, assign_raw}
use lazarus.Env.{Env}
use lazarus.Canonical.{canonical_json_default}
use lazarus.Errors.{Result, ok, invalid, guard, refuse, ◌>>=◌, ◌>>◌}
use lazarus.Model.{Moment}
use lazarus.Payloads.{decoded, unset}

pub record CaptureTarget : Type 0 where
  pub target_id : String
  pub lock_key : String
  pub kind : String
  pub host : String
  pub original_state : String
  pub observed_at : Option Moment
  pub metadata : Raw

-- a *time.Time: null is nil
unfoldable pub assign_time : Env → Json → Option Moment → Option (Option Moment)
assign_time env (str s) old = elim (env.parse_time s) [ none ↦ none | some t ↦ some (some t) ]
assign_time env null old = some none
assign_time env _ old = none

-- json.Unmarshal of one element
unfoldable pub decode_target : Env → Json → Result CaptureTarget
unfolding object_fields decode_field assign_string assign_raw assign_time
decode_target env v = decoded (object_fields (some v)) λ fields.
    decoded (decode_field assign_string "target_id" fields "") λ target_id.
      decoded (decode_field assign_string "lock_key" fields "") λ lock_key.
        decoded (decode_field assign_string "kind" fields "") λ kind.
          decoded (decode_field assign_string "host" fields "") λ host.
            decoded (decode_field assign_string "original_state" fields "") λ original_state.
              decoded (decode_field (assign_time env) "observed_at" fields none) λ observed_at.
                decoded (decode_field assign_raw "metadata" fields unset) λ metadata. ok (record {
                  target_id = target_id;
                  lock_key = lock_key;
                  kind = kind;
                  host = host;
                  original_state = original_state;
                  observed_at = observed_at;
                  metadata = metadata;
                })

unfoldable pub decode_targets : Env → Items → Result (List CaptureTarget)
unfolding decode_target
decode_targets env nil = ok []
decode_targets env (cons v vs) = do
  target ← decode_target env v
  targets ← decode_targets env vs
  ok (target ∷ targets)

abbrev pub is_original_state : String → Bool
is_original_state s = s == "running" || s == "stopped" || s == "degraded" || s == "unknown"

-- one round of the loop: the checks of a target, and the fields that it rewrites
unfoldable pub check_target : List String → CaptureTarget → Result CaptureTarget
unfolding canonical_json_default
check_target seen target = do
  guard (valid_id target.target_id) invalid
  refuse (any (λ s. s == target.target_id) seen) invalid
  let lock_key = trim_space target.lock_key
  refuse (lock_key == "" || ltb 512 (len lock_key)) invalid
  refuse (ltb 100 (len target.kind) || ltb 512 (len target.host)) invalid
  guard (is_original_state target.original_state) invalid
  metadata ← canonical_json_default target.metadata
  refuse (ltb (64 * 1024) metadata.size) invalid
  ok (record target { lock_key = lock_key; metadata = metadata })

unfoldable pub check_targets : List String → List CaptureTarget → Result (List CaptureTarget)
unfolding check_target
check_targets seen [] = ok []
check_targets seen (target ∷ rest) = do
  checked ← check_target seen target
  further ← check_targets (target.target_id ∷ seen) rest
  ok (checked ∷ further)

-- `null` decodes to a nil slice, which is refused like any other value that is no array
unfoldable pub target_items : Option Json → Option Items
target_items (some (arr vs)) = some vs
target_items _ = none

unfoldable pub parse_capture_targets : Env → Raw → Result (List CaptureTarget)
unfolding object_fields decode_field assign_raw decode_targets target_items check_targets
parse_capture_targets env payload = decoded (object_fields payload.value) λ fields.
    decoded (decode_field assign_raw "targets" fields unset) λ envelope.
      if is_empty envelope
      then ok []
      else decoded (target_items envelope.value)
          λ items. do targets ← decode_targets env items; check_targets [] targets
