-- ===== src/Payloads.antt =====
-- What the store reads back out of event payloads: justifications and details (verify.go and
-- mutations.go of internal/store).
pub mod Written
use Prim.Native.String.{len}
use lazarus.Base.{String, not, ◌||◌, ◌==◌, ltb, Option, none, some}
use lazarus.Text.{trim_space}
use lazarus.Json.{Json, Fields, Raw, is_valid, is_empty}
use lazarus.Json.Decode.{object_fields, decode_field, assign_string, assign_raw}
use lazarus.Errors.{Result, ok, err, invalid, guard, refuse, ◌>>◌}

unfoldable pub valid_justification : String → Result (Unit {0})
unfolding trim_space
valid_justification value = do
  let trimmed = trim_space value
  refuse (trimmed == "" || ltb 4096 (len trimmed)) invalid
  ok tt

-- the error of json.Unmarshal
abbrev pub decoded {ℓ κ} : {A : Type ℓ} {B : Type κ} → Option A → (A → Result B) → Result B
decoded none f = err invalid
decoded (some a) f = f a

-- a RawMessage that the payload does not set
abbrev pub unset : Raw
unset = record { size = 0; value = none }

unfoldable pub valid_event_justification : Raw → Result (Unit {0})
unfolding object_fields decode_field assign_string valid_justification
valid_event_justification payload = decoded (object_fields payload.value) λ fields.
    decoded (decode_field assign_string "justification" fields "") λ text. valid_justification text

unfoldable pub valid_transition_payload : Raw → Result (Unit {0})
unfolding object_fields decode_field assign_string assign_raw
valid_transition_payload payload = decoded (object_fields payload.value) λ fields.
    decoded (decode_field assign_string "justification" fields "") λ _.
      decoded (decode_field assign_raw "detail" fields unset)
        λ detail. do refuse (is_empty detail || not (is_valid detail)) invalid; ok tt
