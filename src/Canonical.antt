-- ===== src/Canonical.antt =====
-- `normalizeJSON`, `canonicalJSON`, `canonicalJSONDefault` and `canonicalJSONObject` of
-- internal/store.
pub mod Idempotent
use lazarus.Base.{Bool, true, false, Option, none, some, if◌then◌else◌}
use lazarus.Json.{Json, obj, Raw, print, is_valid, is_empty, empty_object}
use lazarus.Json.Normal.{normal}
use lazarus.Errors.{Result, ok, err, invalid, guard, ◌>>=◌, ◌>>◌}

unfoldable pub normalize_json : Raw → Result Raw
normalize_json raw = do
  let given = if is_empty raw then empty_object else raw
  guard (is_valid given) invalid
  ok given

-- Decoding into maps and encoding again: the keys of each object in order, each once. A text with a
-- second value is not one JSON value.
unfoldable pub canonical_json : Raw → Result Raw
unfolding normal
canonical_json raw = elim raw.value [ none ↦ err invalid | some v ↦ ok (print (normal v)) ]

unfoldable pub canonical_json_default : Raw → Result Raw
unfolding normalize_json canonical_json
canonical_json_default raw = do normalized ← normalize_json raw; canonical_json normalized

-- `json.Unmarshal(canonical, &object) == nil && object != nil`
abbrev pub is_object : Option Json → Bool
is_object (some (obj fs)) = true
is_object _ = false

unfoldable pub canonical_json_object : Raw → Result Raw
unfolding canonical_json_default
canonical_json_object raw = do
  canonical ← canonical_json_default raw
  guard (is_object canonical.value) invalid
  ok canonical
