-- ===== src/Json.antt =====
-- JSON as encoding/json shows it to the store. A `json.RawMessage` is its length and the value
-- that it decodes to; an object has its fields in the order of the text, which in canonical JSON
-- is that of the keys. A number that is no natural number keeps its
-- literal, an ASCII character and the rest.
pub mod Decode
pub mod Equality
pub mod Normal
use Prim.Native.Char.{Char, code}
use Prim.Native.String.{len}
use lazarus.Base.{
  ℕ, zero, suc, ◌+◌, ◌/◌, String, Bool, true, false, ◌&&◌, ◌||◌, ◌==◌, ltb, eqb, if◌then◌else◌,
  Option, none, some, is_some,
}

mutual
  pub data Json : Type 0 where
    null : Json
    bool : Bool → Json
    num : ℕ → Json
    number : Char → String → Json
    str : String → Json
    arr : Items → Json
    obj : Fields → Json

  pub data Items : Type 0 where
    nil : Items
    cons : Json → Items → Items

  pub data Fields : Type 0 where
    end : Fields
    field : String → Json → Fields → Fields

bool_eq : Bool → Bool → Bool
bool_eq true b = b
bool_eq false true = false
bool_eq false false = true

-- equality of canonical texts
unfoldable mutual
  unfolding bool_eq

  pub json_eq : Json → Json → Bool
  json_eq null null = true
  json_eq (bool a) (bool b) = bool_eq a b
  json_eq (num a) (num b) = eqb a b
  json_eq (number c a) (number d b) = eqb (code c) (code d) && a == b
  json_eq (str a) (str b) = a == b
  json_eq (arr a) (arr b) = items_eq a b
  json_eq (obj a) (obj b) = fields_eq a b
  json_eq _ _ = false

  pub items_eq : Items → Items → Bool
  items_eq nil nil = true
  items_eq (cons v a) (cons w b) = json_eq v w && items_eq a b
  items_eq _ _ = false

  pub fields_eq : Fields → Fields → Bool
  fields_eq end end = true
  fields_eq (field k v a) (field j w b) = k == j && json_eq v w && fields_eq a b
  fields_eq _ _ = false

-- the bytes of a character in a string that json.Marshal writes
char_size : ℕ → ℕ
char_size c =
    if eqb c b'"' || eqb c 0x5C || eqb c 8 || eqb c 9 || eqb c 10 || eqb c 12 || eqb c 13
    then 2
    else if ltb c 0x20 || eqb c b'<' || eqb c b'>' || eqb c b'&' || eqb c 0x2028 || eqb c 0x2029
    then 6
    else if ltb c 0x80
    then 1
    else if ltb c 0x800
    then 2
    else if ltb c 0x10000
    then 3
    else 4

chars_size : String → ℕ
unfolding char_size
chars_size String.[] = 0
chars_size (String.◌∷◌ c s) = char_size (code c) + chars_size s

-- decimal digits of a number, by fuel
unfoldable pub digits_size : ℕ → ℕ → ℕ
digits_size zero n = 1
digits_size (suc f) n = let rest = digits_size f (n / 10) in if ltb n 10 then 1 else 1 + rest

unfoldable mutual
  unfolding chars_size digits_size

  pub json_size : Json → ℕ
  json_size null = 4
  json_size (bool b) = if b then 4 else 5
  json_size (num n) = digits_size n n
  json_size (number c s) = len s + 1
  json_size (str s) = chars_size s + 2
  json_size (arr nil) = 2
  json_size (arr (cons v vs)) = json_size v + items_size vs + 2
  json_size (obj end) = 2
  json_size (obj (field k v fs)) = chars_size k + json_size v + fields_size fs + 5

  -- the items after the first, each behind a comma
  pub items_size : Items → ℕ
  items_size nil = 0
  items_size (cons v vs) = json_size v + items_size vs + 1

  pub fields_size : Fields → ℕ
  fields_size end = 0
  fields_size (field k v fs) = chars_size k + json_size v + fields_size fs + 4

-- json.RawMessage; `value` is `none` for a text that is not valid JSON
pub record Raw : Type 0 where
  pub size : ℕ
  pub value : Option Json

-- json.Marshal
unfoldable pub print : Json → Raw
print v = record { size = json_size v; value = some v }

-- json.Valid
abbrev pub is_valid : Raw → Bool
is_valid raw = is_some raw.value

-- `len(raw) == 0`
abbrev pub is_empty : Raw → Bool
is_empty raw = eqb raw.size 0

abbrev pub empty_object : Raw
empty_object = record { size = 2; value = some (obj end) }

abbrev value_eq : Option Json → Option Json → Bool
value_eq (some v) (some w) = json_eq v w
value_eq none none = true
value_eq _ _ = false

-- `string(a) == string(b)`
unfoldable pub raw_eq : Raw → Raw → Bool
raw_eq a b = eqb a.size b.size && value_eq a.value b.value
