-- ===== src/Json/Decode.antt =====
-- json.Unmarshal into a struct: every field of the object that matches the name, in order.
use lazarus.Base.{ltb, ◌^◌, ℕ, String, Option, none, some, if◌then◌else◌}
use lazarus.Text.{matches_name}
use lazarus.Json.{Json, Fields, null, num, str, obj, end, field, Raw, print}

-- null leaves a string as it is
unfoldable pub assign_string : Json → String → Option String
assign_string (str s) old = some s
assign_string null old = some old
assign_string _ old = none

unfoldable pub assign_nat : Json → ℕ → Option ℕ
assign_nat (num n) old = some n
assign_nat null old = some old
assign_nat _ old = none

unfoldable pub assign_raw : Json → Raw → Option Raw
assign_raw v old = some (print v)

-- the value of a field that starts as `old`; `none` if a value has the wrong type
unfoldable pub decode_field {ℓ} :
    {A : Type ℓ} → (Json → A → Option A) → String → Fields → A → Option A
unfolding matches_name
decode_field assign name end old = some old
decode_field assign name (field k v rest) old =
    elim (if matches_name k name then assign v old else some old) [
      | none ↦ none
      | some new ↦ decode_field assign name rest new
    ]

-- the fields of an object; null decodes to the struct as it is
unfoldable pub object_fields : Option Json → Option Fields
object_fields (some (obj fs)) = some fs
object_fields (some null) = some end
object_fields _ = none

-- a number that an int64 holds
unfoldable pub assign_int64 : Json → ℕ → Option ℕ
assign_int64 (num n) old = if ltb n (2 ^ 63) then some n else none
assign_int64 null old = some old
assign_int64 _ old = none
