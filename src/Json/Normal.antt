-- ===== src/Json/Normal.antt =====
-- JSON values as `canonicalJSON` of internal/store/store.go leaves them: decoding into a Go map
-- keeps the last field of each key, and json.Marshal writes the keys in order.
pub mod Order
pub mod Values
use Prim.Native.Nat.{Ordering}
use Prim.Native.String.{compare}
use lazarus.Base.{String, Bool, true, false, ◌&&◌}
use lazarus.Json.{
  Json, Items, Fields, null, bool, num, number, str, arr, obj, nil, cons, end, field,
}

-- a field in front of fields in order: a later field of the key wins
unfoldable pub insert_field : String → Json → Fields → Fields
insert_field k v end = field k v end
insert_field k v (field j w fs) =
    let further = insert_field k v fs in
    elim (compare k j) [
      | Ordering.lt ↦ field k v (field j w fs)
      | Ordering.eq ↦ field j w fs
      | Ordering.gt ↦ field j w further
    ]

unfoldable mutual
  unfolding insert_field

  pub normal : Json → Json
  normal null = null
  normal (bool b) = bool b
  normal (num n) = num n
  normal (number c s) = number c s
  normal (str s) = str s
  normal (arr vs) = arr (normal_items vs)
  normal (obj fs) = obj (normal_fields fs)

  pub normal_items : Items → Items
  normal_items nil = nil
  normal_items (cons v vs) = cons (normal v) (normal_items vs)

  pub normal_fields : Fields → Fields
  normal_fields end = end
  normal_fields (field k v fs) = insert_field k (normal v) (normal_fields fs)

-- the key is before every other
abbrev pub is_before_first : String → Fields → Bool
is_before_first k end = true
is_before_first k (field j w fs) = elim (compare k j) [ Ordering.lt ↦ true | _ ↦ false ]

unfoldable mutual
  pub is_normal : Json → Bool
  is_normal null = true
  is_normal (bool b) = true
  is_normal (num n) = true
  is_normal (number c s) = true
  is_normal (str s) = true
  is_normal (arr vs) = items_normal vs
  is_normal (obj fs) = fields_normal fs

  pub items_normal : Items → Bool
  items_normal nil = true
  items_normal (cons v vs) = is_normal v && items_normal vs

  pub fields_normal : Fields → Bool
  fields_normal end = true
  fields_normal (field k v fs) = is_normal v && is_before_first k fs && fields_normal fs
