-- ===== src/Auth.antt =====
-- internal/auth/auth.go: the token table, and who a request is. The digest of a token is a
-- parameter; the texts of errors are left out. A line of the token file is the value that
-- encoding/json reads from it.
pub mod Table
use Prim.Native.Char.{code}
use Prim.Native.String.{len}
use lazarus.Base.{
  ℕ, ◌+◌, String, Bool, true, false, not, ◌&&◌, ◌||◌, ◌==◌, ltb, eqb, if◌then◌else◌, Option, none,
  some, List, [], ◌∷◌, ◌++◌, any, find, is_some,
}
use lazarus.Text.{trim_space, fold_code}
use lazarus.Json.{Json, Fields, obj, end, field}
use lazarus.Json.Decode.{assign_string}

pub record Principal : Type 0 where
  pub name : String
  pub role : String

pub record Token : Type 0 where
  pub name : String
  pub role : String
  pub value : String

abbrev pub max_token_len : ℕ
max_token_len = 4096

abbrev pub max_name_len : ℕ
max_name_len = 200

unfoldable pub is_role : String → Bool
is_role role = role == "reader" || role == "operator" || role == "admin"

unfoldable pub rank : String → ℕ
rank role =
    if role == "admin"
    then 3
    else if role == "operator"
    then 2
    else if role == "reader"
    then 1
    else 0

-- `Require`: false is ErrForbidden
unfoldable pub require : Principal → String → Bool
unfolding rank
require principal minimum = not (ltb (rank principal.role) (rank minimum))

-- the first field of a name, exactly spelled
unfoldable pub lookup : String → Fields → Option Json
lookup name end = none
lookup name (field k v rest) = if k == name then some v else lookup name rest

-- no name twice
unfoldable pub no_duplicates : Fields → Bool
unfolding lookup
no_duplicates end = true
no_duplicates (field k v rest) = not (is_some (lookup k rest)) && no_duplicates rest

-- `decodeJSONObject`
unfoldable pub decode_json_object : Option Json → Option Fields
unfolding no_duplicates
decode_json_object (some (obj fs)) = if no_duplicates fs then some fs else none
decode_json_object _ = none

unfoldable pub known_fields : Fields → Bool
known_fields end = true
known_fields (field k v rest) = (k == "name" || k == "role" || k == "token") && known_fields rest

-- a field that must be there and be a string; null leaves it empty
unfoldable pub string_field : String → Fields → Option String
unfolding lookup assign_string
string_field name fs = elim (lookup name fs) [ none ↦ none | some v ↦ assign_string v "" ]

-- a token whose role and name pass
unfoldable pub new_token : String → String → String → Option Token
unfolding is_role trim_space
new_token name role value =
    if is_role role && not (name == "") && name == trim_space name
    then some (record { name = name; role = role; value = value })
    else none

infixl 5 ◌>>=◌
abbrev pub ◌>>=◌ {ℓ κ} : {A : Type ℓ} {B : Type κ} → Option A → (A → Option B) → Option B
none >>= f = none
some a >>= f = f a

-- `parseLine`
unfoldable pub parse_line : Option Json → Option Token
unfolding decode_json_object known_fields string_field new_token
parse_line line = do
  fields ← decode_json_object line
  value ← if known_fields fields then string_field "token" fields else none
  role ← string_field "role" fields
  name ← string_field "name" fields
  new_token name role value

-- the checks of a token by itself
unfoldable pub is_acceptable : Token → Bool
unfolding is_role trim_space
is_acceptable t =
    t.value == trim_space t.value
    && not (t.value == "")
    && not (ltb max_token_len (len t.value))
    && is_role t.role
    && not (t.name == "")
    && not (ltb max_name_len (len t.name))

module _ (digest : String → String) where
  -- the name or the digest is taken
  abbrev pub clashes : Token → Token → Bool
  clashes t existing = existing.name == t.name || digest t.value == digest existing.value

  -- `Authenticator.add`
  unfoldable pub add : Token → List Token → Option (List Token)
  unfolding is_acceptable
  add t tokens =
      if is_acceptable t && not (any (clashes t) tokens) then some (tokens ++ t ∷ []) else none

  -- the loop of `LoadFile` over the lines that are not blank
  unfoldable pub load_lines : List (Option Json) → List Token → Option (List Token)
  unfolding parse_line add
  load_lines [] tokens = some tokens
  load_lines (line ∷ lines) tokens = do
    t ← parse_line line
    added ← add t tokens
    load_lines lines added

  -- a file without a token is refused
  unfoldable pub load : List (Option Json) → Option (List Token)
  unfolding load_lines
  load lines = do tokens ← load_lines lines []; elim tokens [ [] ↦ none | t ∷ ts ↦ some (t ∷ ts) ]

-- header[:len("Bearer ")] without regard to case, and what follows it
unfoldable pub strip_prefix : String → String → Option String
unfolding fold_code
strip_prefix String.[] header = some header
strip_prefix (String.◌∷◌ p ps) String.[] = none
strip_prefix (String.◌∷◌ p ps) (String.◌∷◌ c header) =
    if eqb (fold_code (code p)) (fold_code (code c)) then strip_prefix ps header else none

-- strings.ContainsAny(provided, " \t\r\n")
unfoldable pub has_blank : String → Bool
has_blank String.[] = false
has_blank (String.◌∷◌ c s) =
    eqb (code c) 32 || eqb (code c) 9 || eqb (code c) 13 || eqb (code c) 10 || has_blank s

-- the credential of the Authorization header
unfoldable pub provided : String → Option String
unfolding trim_space strip_prefix has_blank
provided raw_header = if ltb (7 + max_token_len) (len raw_header) then none else (do
  rest ← strip_prefix "Bearer " (trim_space raw_header)
  let credential = trim_space rest
  if credential == "" || has_blank credential then none else some credential)

module _ (digest : String → String) where
  -- the first token with the digest of the credential
  unfoldable pub identify : String → List Token → Option Principal
  identify credential tokens = elim (find (λ t. digest credential == digest t.value) tokens) [
    | none ↦ none
    | some t ↦ some (record { name = t.name; role = t.role })
  ]

  -- `Authenticate`: `none` is ErrUnauthorized
  unfoldable pub authenticate : String → List Token → Option Principal
  unfolding provided identify
  authenticate raw_header tokens = do credential ← provided raw_header; identify credential tokens
