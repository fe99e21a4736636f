-- ===== src/Text.antt =====
-- Go strings as Unicode texts: strings.TrimSpace, the identifier test `validID` of
-- internal/store/store.go, SQLite's length(), and the field-name folding of encoding/json.
pub mod Trim
use Prim.Native.Char.{code}
use Prim.Native.String.{len}
use lazarus.Base.{
  ℕ, ◌+◌, String, Bool, true, false, not, ◌&&◌, ◌||◌, ◌==◌, ltb, leb, eqb, if◌then◌else◌,
}

-- unicode.IsSpace
unfoldable pub is_space : ℕ → Bool
is_space c =
    (leb 9 c && leb c 13)
    || eqb c 32
    || eqb c 0x85
    || eqb c 0xA0
    || eqb c 0x1680
    || (leb 0x2000 c && leb c 0x200A)
    || eqb c 0x2028
    || eqb c 0x2029
    || eqb c 0x202F
    || eqb c 0x205F
    || eqb c 0x3000

unfoldable pub trim_left : String → String
unfolding is_space
trim_left String.[] = ""
trim_left (String.◌∷◌ c s) =
    let rest = trim_left s in if is_space (code c) then rest else String.◌∷◌ c s

unfoldable pub trim_right : String → String
unfolding is_space
trim_right String.[] = ""
trim_right (String.◌∷◌ c s) =
    let rest = trim_right s in if is_space (code c) && rest == "" then "" else String.◌∷◌ c rest

unfoldable pub trim_space : String → String
unfolding trim_left trim_right
trim_space s = trim_right (trim_left s)

-- a character of an identifier: the first may not be punctuation
unfoldable pub is_id_char : Bool → ℕ → Bool
is_id_char first c =
    (leb b'a' c && leb c b'z')
    || (leb b'A' c && leb c b'Z')
    || (leb b'0' c && leb c b'9')
    || (not first
        && (eqb c b'.' || eqb c b'_' || eqb c b':' || eqb c b'@' || eqb c b'+' || eqb c b'-'))

unfoldable pub all_id_chars : Bool → String → Bool
unfolding is_id_char
all_id_chars first String.[] = true
all_id_chars first (String.◌∷◌ c s) = is_id_char first (code c) && all_id_chars false s

unfoldable pub valid_id : String → Bool
unfolding all_id_chars
valid_id v = not (ltb (len v) 1 || ltb 200 (len v)) && all_id_chars true v

-- SQLite's length(): the characters before the first NUL
unfoldable pub sql_length : String → ℕ
sql_length String.[] = 0
sql_length (String.◌∷◌ c s) = let rest = sql_length s in if eqb (code c) 0 then 0 else 1 + rest

-- encoding/json matches object keys to field names up to simple case folding
unfoldable pub fold_code : ℕ → ℕ
fold_code c =
    if leb b'A' c && leb c b'Z'
    then c + 32
    else if eqb c 0x17F
    then b's'
    else if eqb c 0x212A
    then b'k'
    else c

unfoldable pub matches_name : String → String → Bool
unfolding fold_code
matches_name String.[] String.[] = true
matches_name (String.◌∷◌ c s) (String.◌∷◌ d t) =
    eqb (fold_code (code c)) (fold_code (code d)) && matches_name s t
matches_name _ _ = false
