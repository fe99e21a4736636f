-- ===== src/Api/IfMatch/RoundTrip.antt =====
-- An entity tag that the server sends is a precondition that its version meets, and no other.
use text.Mathlib.TextLemmas.{cons≢nil}
use Prim.Native.Char.{char}
use lazarus.Base.{
  ℕ, suc, ◌+◌, String, ◌≡◌, refl, ap, ◌∙◌, inl, inr, true, false, some, [], ◌∷◌, arith, ◌==◌,
  eq_iff, eq_refl, Bool-cases,
}
use lazarus.Text.{is_space, trim_left, trim_right, trim_space}
use lazarus.Model.{is_positive}
use lazarus.Api.Header.{join_values}
use lazarus.Api.Decimal.{format_int, all_digits, format_int-all_digits, parse_int-format_int}
use lazarus.Api.IfMatch.{
  closed, version_etag, size, skip_blanks, drop_weak, after, scan_opaque, tag_versions, one_tag,
  parse_tags, versions, accepted, precondition_from, version_precondition, is_star, precondition_of,
  behind_tag,
}

closed-ne_empty : (s : String) → (closed s == "") ≡ false
closed-ne_empty String.[] = refl
closed-ne_empty (String.◌∷◌ c s) = elim (Bool-cases (closed (String.◌∷◌ c s) == "")) [
  | inl e ↦ absurd (cons≢nil ((eq_iff (closed (String.◌∷◌ c s)) "").0 e))
  | inr e ↦ e
]

trim_right-closed : (s : String) → trim_right (closed s) ≡ closed s
unfolding trim_right
trim_right-closed String.[] = refl
trim_right-closed (String.◌∷◌ c s) =
    rw (trim_right-closed s) (rw (closed-ne_empty s) (ground arith))

scan_opaque-closed : (s : String) → all_digits s ≡ true → scan_opaque (closed s) ≡ some (s, "")
unfolding scan_opaque
scan_opaque-closed String.[] h = refl
scan_opaque-closed (String.◌∷◌ c s) h = ground (arith, h, scan_opaque-closed s)

tag_versions-format_int : (n : ℕ) → is_positive n ≡ true → tag_versions (format_int n) ≡ n ∷ []
unfolding tag_versions is_positive
tag_versions-format_int n h = ground (arith, h, parse_int-format_int n, eq_refl (format_int n))

abbrev quoted : String → String
quoted s = String.◌∷◌ (char 34 tt) (closed s)

drop_weak-quote :
    (t : String) → drop_weak (String.◌∷◌ (char 34 tt) t) ≡ (false, String.◌∷◌ (char 34 tt) t)
unfolding drop_weak
drop_weak-quote String.[] = refl
drop_weak-quote (String.◌∷◌ c t) = refl

is_star-quote : (t : String) → is_star (String.◌∷◌ (char 34 tt) t) ≡ false
is_star-quote String.[] = refl
is_star-quote (String.◌∷◌ c t) = refl

-- a quoted number is one strong tag, and nothing follows it
one_tag-quoted : (s : String) → all_digits s ≡ true → one_tag (quoted s) ≡ some (tag_versions s, "")
unfolding one_tag skip_blanks after
one_tag-quoted s h = rw (drop_weak-quote (closed s)) (rw (scan_opaque-closed s h) refl)

trim_space-quoted : (s : String) → trim_space (quoted s) ≡ quoted s
unfolding trim_space trim_left trim_right is_space
trim_space-quoted s = rw (trim_right-closed s) refl

parse_tags-quoted :
    (f : ℕ) (s : String)
    → all_digits s ≡ true
    → parse_tags (f + 1) (quoted s) ≡ versions (tag_versions s)
unfolding parse_tags behind_tag
parse_tags-quoted f s h =
    let fueled : f + 1 ≡ suc f = omega arith in
    ap (λ g. parse_tags g (quoted s)) fueled ∙ rw (one_tag-quoted s h) refl

precondition_from-quoted :
    (s : String)
    → all_digits s ≡ true
    → precondition_from (quoted s) ≡ precondition_of (versions (tag_versions s))
unfolding precondition_from
precondition_from-quoted s h =
    rw (is_star-quote (closed s)) (ap precondition_of (parse_tags-quoted (size (quoted s)) s h))

-- The If-Match header with the entity tag of a version is the precondition of that one version.
pub version_precondition-version_etag :
    (n : ℕ)
    → is_positive n ≡ true
    → version_precondition (version_etag n ∷ [])
      ≡ accepted (record { any_version = false; versions = n ∷ [] })
unfolding version_precondition version_etag join_values
version_precondition-version_etag n h =
    ap precondition_from (trim_space-quoted (format_int n))
    ∙ precondition_from-quoted (format_int n) (format_int-all_digits n)
    ∙ ap (λ vs. precondition_of (versions vs)) (tag_versions-format_int n h)
