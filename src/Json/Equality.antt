-- ===== src/Json/Equality.antt =====
-- A canonical text is equal to itself.
use lazarus.Base.{◌≡◌, refl, Bool, true, false, arith, eqb_refl, eq_refl, Option, none, some}
use Prim.Native.Char.{code}
use lazarus.Json.{
  Json, Items, Fields, null, bool, num, number, str, arr, obj, nil, cons, end, field, Raw, json_eq,
  items_eq, fields_eq, bool_eq, raw_eq, value_eq,
}

bool_eq_refl : (b : Bool) → bool_eq b b ≡ true
unfolding bool_eq
bool_eq_refl true = refl
bool_eq_refl false = refl

mutual
  unfolding json_eq items_eq fields_eq

  json_eq_self : (v : Json) → json_eq v v ≡ true
  json_eq_self null = refl
  json_eq_self (bool b) = bool_eq_refl b
  json_eq_self (num n) = eqb_refl n
  json_eq_self (number c s) = ground (arith, eqb_refl (code c), eq_refl s)
  json_eq_self (str s) = eq_refl s
  json_eq_self (arr vs) = items_eq_self vs
  json_eq_self (obj fs) = fields_eq_self fs

  items_eq_self : (vs : Items) → items_eq vs vs ≡ true
  items_eq_self nil = refl
  items_eq_self (cons v vs) = ground (arith, json_eq_self v, items_eq_self vs)

  fields_eq_self : (fs : Fields) → fields_eq fs fs ≡ true
  fields_eq_self end = refl
  fields_eq_self (field k v fs) = ground (arith, eq_refl k, json_eq_self v, fields_eq_self fs)

value_eq_refl : (v : Option Json) → value_eq v v ≡ true
value_eq_refl none = refl
value_eq_refl (some v) = json_eq_self v

pub raw_eq_refl : (raw : Raw) → raw_eq raw raw ≡ true
unfolding raw_eq
raw_eq_refl raw = ground (arith, eqb_refl raw.size, value_eq_refl raw.value)
