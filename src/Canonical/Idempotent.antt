-- ===== src/Canonical/Idempotent.antt =====
-- Canonical JSON is its own canonical form.
use lazarus.Base.{◌≡◌, refl, sym, ap, ◌∙◌, false, true, some, arith, if◌then◌else◌}
use lazarus.Json.{Json, Raw, print, is_valid, is_empty, empty_object}
use lazarus.Json.Normal.{normal}
use lazarus.Json.Normal.Order.{normal_idem}
use lazarus.Errors.{ok}
use lazarus.Canonical.{canonical_json, canonical_json_default, canonical_json_object, is_object}
use lazarus.Journal.{detail_value}
use lazarus.Payloads.Written.{print-is_empty}

pub canonical_json_default-print :
    (v : Json) → normal v ≡ v → canonical_json_default (print v) ≡ ok (print v)
unfolding canonical_json_default print
canonical_json_default-print v fixed = ground (arith, print-is_empty v, fixed)

-- what is canonical is the print of a canonical value
pub record IsPrint (raw : Raw) : Type 0 where
  pub value : Json
  pub fixed : normal value ≡ value
  pub printed : raw ≡ print value

pub canonical_json_default-IsPrint :
    (raw : Raw) {canonical : Raw} → canonical_json_default raw ≡ ok canonical → IsPrint canonical
unfolding canonical_json_default
canonical_json_default-IsPrint raw h = record {
  value = normal (detail_value (if is_empty raw then empty_object else raw).value);
  fixed = normal_idem (detail_value (if is_empty raw then empty_object else raw).value);
  printed = ground arith;
}

canonical_json_object-default :
    (raw : Raw) {canonical : Raw}
    → canonical_json_object raw ≡ ok canonical
    → (canonical_json_default raw ≡ ok canonical) × (is_object canonical.value ≡ true)
unfolding canonical_json_object
canonical_json_object-default raw h = ground arith

canonical_json_object-print :
    (v : Json)
    → normal v ≡ v
    → is_object (some v) ≡ true
    → canonical_json_object (print v) ≡ ok (print v)
unfolding canonical_json_object print
canonical_json_object-print v fixed h = ground (arith, canonical_json_default-print v fixed, h)

-- A canonical object is its own canonical form, is valid and is not empty.
pub canonical_json_object_idem :
    (raw : Raw) {canonical : Raw}
    → canonical_json_object raw ≡ ok canonical
    → (canonical_json_object canonical ≡ ok canonical)
      × (is_valid canonical ≡ true)
      × (is_empty canonical ≡ false)
unfolding print
canonical_json_object_idem raw {canonical} h =
    let (once, shape) = canonical_json_object-default raw h in
    let p = canonical_json_default-IsPrint raw once in
    rw (p.printed) (
      canonical_json_object-print p.value p.fixed
          (ap (λ (r : Raw). is_object r.value) (sym p.printed) ∙ shape),
      refl,
      print-is_empty p.value,
    )

-- A canonical object is canonical JSON.
pub canonical_json_object-canonical :
    (raw : Raw) {canonical : Raw}
    → canonical_json_object raw ≡ ok canonical
    → canonical_json canonical ≡ ok canonical
unfolding canonical_json print
canonical_json_object-canonical raw {canonical} h =
    let p = canonical_json_default-IsPrint raw (canonical_json_object-default raw h).0 in
    rw (p.printed) (ap (λ v. ok (print v)) p.fixed)
