-- ===== src/Payloads/Written.antt =====
-- The payload that `eventPayload` writes passes the checks of the replay.
use lazarus.Base.{ℕ, zero, suc, ◌<◌, String, ◌≡◌, true, false, ◌==◌, arith, if◌then◌else◌}
use lazarus.Text.{trim_space}
use lazarus.Text.Trim.{trim_space_idem}
use lazarus.Json.{
  Raw, Json, null, bool, num, number, str, arr, obj, nil, cons, end, field, print, json_size,
  digits_size, is_valid, is_empty, empty_object,
}
use lazarus.Errors.{ok}
use lazarus.Journal.{event_payload, justification_field, detail_value}
use lazarus.Payloads.{valid_justification, valid_event_justification, valid_transition_payload}

digits_size-pos : (f n : ℕ) → 0 < digits_size f n
unfolding digits_size
digits_size-pos zero n = omega arith
digits_size-pos (suc f) n = ground arith

json_size-pos : (v : Json) → 0 < json_size v
unfolding json_size
json_size-pos null = omega arith
json_size-pos (bool b) = ground arith
json_size-pos (num n) = digits_size-pos n n
json_size-pos (number c s) = omega arith
json_size-pos (str s) = omega arith
json_size-pos (arr nil) = omega arith
json_size-pos (arr (cons v vs)) = omega arith
json_size-pos (obj end) = omega arith
json_size-pos (obj (field k v fs)) = omega arith

-- A value takes up room.
pub print-is_empty : (v : Json) → is_empty (print v) ≡ false
unfolding print
print-is_empty v = ground (arith, json_size-pos v)

transition_fields :
    (text : String) (v : Json)
    → valid_transition_payload (print (obj (justification_field text (field "detail" v end))))
      ≡ ok tt
unfolding valid_transition_payload print
transition_fields text v = ground (arith, json_size-pos v)

justification_fields :
    (text : String) (v : Json)
    → (text == "") ≡ false
    → valid_event_justification (print (obj (justification_field text (field "detail" v end))))
      ≡ valid_justification text
unfolding valid_event_justification print
justification_fields text v h = rw h

module _ (detail : Raw) (text : String) {payload : Raw}
    (written : event_payload detail text ≡ ok payload) where
  pub event_payload-valid : (is_valid payload ≡ true) × (is_empty payload ≡ false)
  unfolding event_payload print
  event_payload-valid = ground (
    arith,
    json_size-pos (
        obj (
          justification_field text (
            field "detail" (detail_value (if is_empty detail then empty_object else detail).value)
              end))),
  )

  pub event_payload-transition : valid_transition_payload payload ≡ ok tt
  unfolding event_payload
  event_payload-transition = ground (
    arith,
    transition_fields text (detail_value (if is_empty detail then empty_object else detail).value),
  )

valid_justification-ne_empty :
    (text : String) → valid_justification text ≡ ok tt → (trim_space text == "") ≡ false
unfolding valid_justification
valid_justification-ne_empty text h = ground arith

valid_justification-trim_space :
    (text : String) → valid_justification (trim_space text) ≡ valid_justification text
unfolding valid_justification
valid_justification-trim_space text = rw (trim_space_idem text)

-- A justification that was accepted is accepted again out of the payload.
pub event_payload-justification :
    (detail : Raw) (text : String) {payload : Raw}
    → event_payload detail (trim_space text) ≡ ok payload
    → valid_justification text ≡ ok tt
    → valid_event_justification payload ≡ ok tt
unfolding event_payload
event_payload-justification detail text written valid = ground (
  arith,
  justification_fields (trim_space text)
      (detail_value (if is_empty detail then empty_object else detail).value)
      (valid_justification-ne_empty text valid),
  valid_justification-trim_space text,
)
