-- ===== src/Api/IfMatch/Terminates.antt =====
-- The loop over the entity tags ends: every round takes characters off the header.
use Prim.Native.Char.{code}
use lazarus.Base.{
  ℕ, zero, suc, ◌≤◌, ◌<◌, String, ◌≡◌, refl, inl, inr, Bool, true, false, Option, none, some, List,
  arith, eqb, ◌||◌, ◌&&◌, ◌∙◌, Bool-cases, Option-cases,
}
use lazarus.Api.IfMatch.{
  size, skip_blanks, drop_weak, after, scan_opaque, one_tag, parse_tags, Tags, invalid, versions,
  out_of_fuel, with_versions, behind_comma, behind_tag,
}

size-skip_blanks : (s : String) → size (skip_blanks s) ≤ size s
unfolding skip_blanks size
size-skip_blanks String.[] = omega arith
size-skip_blanks (String.◌∷◌ c s) = elim (Bool-cases (eqb (code c) 32 || eqb (code c) 9)) [
  | inl e ↦
      let rest : size (skip_blanks s) ≤ size s = size-skip_blanks s in rw e (omega (arith, rest))
  | inr e ↦ rw e (omega arith)
]

size-drop_weak : (s : String) → size ((drop_weak s).1) ≤ size s
unfolding drop_weak size
size-drop_weak String.[] = omega arith
size-drop_weak (String.◌∷◌ c String.[]) = omega arith
size-drop_weak (String.◌∷◌ c (String.◌∷◌ d s)) =
    elim (Bool-cases (eqb (code c) b'W' && eqb (code d) b'/')) [
      | inl e ↦ rw e (omega arith)
      | inr e ↦ rw e (omega arith)
    ]

size-after :
    (wanted : ℕ) (s : String) {rest : String} → after wanted s ≡ some rest → size rest < size s
unfolding after size
size-after wanted String.[] h = ground (arith, h)
size-after wanted (String.◌∷◌ c s) h = ground (arith, h)

size-scan_opaque :
    (s : String) {opaque rest : String} → scan_opaque s ≡ some (opaque, rest) → size rest < size s
unfolding scan_opaque size
size-scan_opaque String.[] h = ground (arith, h)
size-scan_opaque (String.◌∷◌ c s) {opaque} {rest} h = elim (Option-cases (scan_opaque s)) [
  | inl ended ↦ ground (arith, h, ended)
  | inr ((o, r), more) ↦ ground (arith, h, more, size-scan_opaque s more)
]

-- A tag takes at least one character.
size-one_tag :
    (s : String) {new : List ℕ} {rest : String} → one_tag s ≡ some (new, rest) → size rest < size s
unfolding one_tag
size-one_tag s {new} {rest} h =
    let start = (drop_weak (skip_blanks s)).1 in
    let started : size start ≤ size (skip_blanks s) = size-drop_weak (skip_blanks s) in
    let unblanked : size (skip_blanks s) ≤ size s = size-skip_blanks s in
    elim (Option-cases (after b'"' start)) [
      | inl unquoted ↦ ground (arith, h, unquoted)
      | inr (quoted, opened) ↦
          let less : size quoted < size start = size-after b'"' start opened in
          elim (Option-cases (scan_opaque quoted)) [
            | inl unclosed ↦ ground (arith, h, opened, unclosed)
            | inr ((opaque, r), found) ↦
                let scanned : size r < size quoted = size-scan_opaque quoted found in
                let last : skip_blanks r ≡ rest = ground (arith, h, opened, found) in
                let blanks : size (skip_blanks r) ≤ size r = size-skip_blanks r in
                rw (← last) (omega (arith, blanks, scanned, less, started, unblanked))
          ]
    ]

-- the loop came to an end
abbrev pub has_ended : Tags → Bool
has_ended out_of_fuel = false
has_ended _ = true

has_ended-with_versions : (new : List ℕ) (t : Tags) → has_ended (with_versions new t) ≡ has_ended t
has_ended-with_versions new invalid = refl
has_ended-with_versions new (versions more) = refl
has_ended-with_versions new out_of_fuel = refl

-- a round ends the loop, if the rounds on fewer characters do
behind_tag-ends :
    (rounds : String → Tags) (n : ℕ)
    → ((s : String) → size s < n → has_ended (rounds s) ≡ true)
    → (o : Option (List ℕ × String))
    → ((new : List ℕ) (rest : String) → o ≡ some (new, rest) → size rest ≤ n)
    → has_ended (behind_tag rounds o) ≡ true
unfolding behind_tag
behind_tag-ends rounds n ends none short = refl
behind_tag-ends rounds n ends (some (new, String.[])) short = refl
behind_tag-ends rounds n ends (some (new, String.◌∷◌ c rest)) short =
    comma (after b',' (String.◌∷◌ c rest)) λ more found.
      size-below more (size-after b',' (String.◌∷◌ c rest) found)
        (short new (String.◌∷◌ c rest) refl)
  where
    size-below :
        (more : String)
        → size more < size (String.◌∷◌ c rest)
        → size (String.◌∷◌ c rest) ≤ n
        → size more < n
    size-below more h k = omega (arith, h, k)

    comma :
        (o : Option String)
        → ((more : String) → o ≡ some more → size more < n)
        → has_ended (behind_comma rounds new o) ≡ true
    comma none less = refl
    comma (some String.[]) less = refl
    comma (some (String.◌∷◌ d more)) less =
        has_ended-with_versions new (rounds (String.◌∷◌ d more))
        ∙ ends (String.◌∷◌ d more) (less (String.◌∷◌ d more) refl)

-- With more fuel than characters the loop over the tags ends, with the versions or with an error.
pub parse_tags-ends : (f : ℕ) (s : String) → size s < f → has_ended (parse_tags f s) ≡ true
unfolding parse_tags
parse_tags-ends zero s h = ground (arith, h)
parse_tags-ends (suc f) String.[] h = refl
parse_tags-ends (suc f) (String.◌∷◌ c s) h =
    behind_tag-ends (parse_tags f) f (parse_tags-ends f) (one_tag (String.◌∷◌ c s)) λ new rest one.
      let less : size rest < size (String.◌∷◌ c s) = size-one_tag (String.◌∷◌ c s) one in
      omega (arith, less, h)
