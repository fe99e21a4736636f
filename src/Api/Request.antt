-- ===== src/Api/Request.antt =====
-- What internal/api/server.go reads of a request: its identifier and its body. A body is the value
-- that encoding/json reads from it, where an object keeps the length of each field's text; white
-- space around an object that is none of JSON's is left out.
use Prim.Native.Char.{code}
use Prim.Native.String.{len}
use lazarus.Base.{
  ℕ, ◌*◌, String, Bool, false, not, ◌&&◌, ◌||◌, ◌==◌, ltb, leb, eqb, if◌then◌else◌, Option, none,
  some, List, [], ◌∷◌,
}
use lazarus.Text.{trim_space, matches_name}
use lazarus.Json.{Json, Fields, null, obj, end, field, Raw}
use lazarus.Json.Decode.{assign_string}
use lazarus.Model.{StateChange}
use lazarus.Payloads.{unset}
use lazarus.Auth.{◌>>=◌}
use lazarus.Api.Query.{Query}

pub record BodyField : Type 0 where
  pub name : String
  pub size : ℕ
  pub value : Json

-- what the text of a body is
pub data BodyText : Type 0 where
  not_json : BodyText
  object : List BodyField → BodyText
  other : Json → BodyText

pub record Body : Type 0 where
  pub size : ℕ
  pub text : BodyText

-- The path is clean: http.ServeMux redirects any other one. `segments` are its parts.
pub record Request : Type 0 where
  pub method : String
  pub segments : List String
  pub query : Query
  pub authorization : String
  pub if_match : List String
  pub request_id : String
  pub body : Body

abbrev raw_field : BodyField → Raw
raw_field f = record { size = f.size; value = some f.value }

abbrev pub fields_of : List BodyField → Fields
fields_of [] = end
fields_of (f ∷ fs) = field f.name f.value (fields_of fs)

abbrev text_value : BodyText → Option Json
text_value not_json = none
text_value (object fs) = some (obj (fields_of fs))
text_value (other v) = some v

abbrev pub body_raw : Body → Raw
body_raw body = record { size = body.size; value = text_value body.text }

-- `readBody`
unfoldable pub read_body : ℕ → Body → Option Body
read_body limit body = if eqb body.size 0 || ltb limit body.size then none else some body

-- `isJSONObject`
unfoldable pub is_json_object : Raw → Bool
is_json_object raw = elim raw.value [ some (obj _) ↦ leb 2 raw.size | _ ↦ false ]

-- `decodeJSONObject`
unfoldable pub decode_json_object : ℕ → Body → Option Raw
unfolding read_body is_json_object
decode_json_object limit body = do
  data_read ← read_body limit body
  if is_json_object (body_raw data_read) then some (body_raw data_read) else none

pub record MaintenanceRequest : Type 0 where
  pub maintenance_id : String
  pub change_ticket : String
  pub workflow_version : String
  pub metadata : Raw

pub record StateChangeRequest : Type 0 where
  pub state : String
  pub justification : String
  pub detail : Raw

-- one field of the object; a name that the struct does not have is refused
unfoldable pub set_maintenance_field : BodyField → MaintenanceRequest → Option MaintenanceRequest
unfolding matches_name assign_string
set_maintenance_field f r =
    if matches_name f.name "maintenance_id"
    then (do v ← assign_string f.value r.maintenance_id; some (record r { maintenance_id = v }))
    else if matches_name f.name "change_ticket"
    then (do v ← assign_string f.value r.change_ticket; some (record r { change_ticket = v }))
    else if matches_name f.name "workflow_version"
    then (do v ← assign_string f.value r.workflow_version; some (record r { workflow_version = v }))
    else if matches_name f.name "metadata"
    then some (record r { metadata = raw_field f })
    else none

unfoldable pub set_change_field : BodyField → StateChangeRequest → Option StateChangeRequest
unfolding matches_name assign_string
set_change_field f r =
    if matches_name f.name "state"
    then (do v ← assign_string f.value r.state; some (record r { state = v }))
    else if matches_name f.name "justification"
    then (do v ← assign_string f.value r.justification; some (record r { justification = v }))
    else if matches_name f.name "detail"
    then some (record r { detail = raw_field f })
    else none

-- the fields one after another
unfoldable pub set_fields {ℓ} :
    {A : Type ℓ} → (BodyField → A → Option A) → List BodyField → A → Option A
set_fields set [] a = some a
set_fields set (f ∷ fs) a = do next ← set f a; set_fields set fs next

-- `decodeJSON` into a struct that starts as `zero`; null leaves it as it is
unfoldable pub decode_json {ℓ} : {A : Type ℓ} → (BodyField → A → Option A) → A → Body → Option A
unfolding read_body set_fields
decode_json set zero body = do
  data_read ← read_body (2 * 1024 * 1024) body
  elim data_read.text [ object fs ↦ set_fields set fs zero | other null ↦ some zero | _ ↦ none ]

abbrev pub no_maintenance : MaintenanceRequest
no_maintenance = record {
  maintenance_id = "";
  change_ticket = "";
  workflow_version = "";
  metadata = unset;
}

abbrev pub no_change : StateChangeRequest
no_change = record { state = ""; justification = ""; detail = unset }

-- `storeValue`
abbrev pub store_value : StateChangeRequest → StateChange
store_value r = record { state = r.state; justification = r.justification; detail = r.detail }

-- strings.ContainsAny(value, "\r\n")
unfoldable pub has_line_break : String → Bool
has_line_break String.[] = false
has_line_break (String.◌∷◌ c s) = eqb (code c) 13 || eqb (code c) 10 || has_line_break s

-- `requestID`; the fresh one is random
unfoldable pub request_id_of : String → Request → String
unfolding trim_space has_line_break
request_id_of fresh r =
    let value = trim_space r.request_id in
    if not (value == "") && leb (len value) 128 && not (has_line_break value) then value else fresh
