-- ===== src/Text/Trim.antt =====
-- Trimming twice is trimming once, and identifiers are not empty.
use Prim.Native.Char.{code}
use text.Mathlib.TextLemmas.{cons≢nil}
use lazarus.Base.{
  String, ◌≡◌, refl, ap, ◌∙◌, inl, inr, Bool, true, false, not, ◌&&◌, ◌==◌, eq_iff, arith,
  Bool-cases, eqb_refl,
}
use lazarus.Text.{is_space, trim_left, trim_right, trim_space, valid_id, fold_code, matches_name}

-- nothing, or a text that does not begin with a space
abbrev starts_black : String → Bool
starts_black String.[] = true
starts_black (String.◌∷◌ c s) = not (is_space (code c))

trim_left-starts_black : (s : String) → starts_black (trim_left s) ≡ true
unfolding trim_left
trim_left-starts_black String.[] = refl
trim_left-starts_black (String.◌∷◌ c s) = elim (Bool-cases (is_space (code c))) [
  | inl e ↦ rw e (trim_left-starts_black s)
  | inr e ↦ rw e (rw e)
]

trim_right-starts_black : (s : String) → starts_black s ≡ true → starts_black (trim_right s) ≡ true
unfolding trim_right
trim_right-starts_black String.[] h = refl
trim_right-starts_black (String.◌∷◌ c s) h = elim (Bool-cases (is_space (code c))) [
  | inl e ↦ ground (arith, h, e)
  | inr e ↦ rw e (rw e)
]

trim_left_black : (s : String) → starts_black s ≡ true → trim_left s ≡ s
unfolding trim_left
trim_left_black String.[] h = refl
trim_left_black (String.◌∷◌ c s) h = ground (arith, h)

trim_right_idem : (s : String) → trim_right (trim_right s) ≡ trim_right s
unfolding trim_right
trim_right_idem String.[] = refl
trim_right_idem (String.◌∷◌ c s) = elim (Bool-cases (is_space (code c) && trim_right s == "")) [
  | inl e ↦ rw e
  | inr e ↦ rw e (rw (trim_right_idem s, e))
]

-- strings.TrimSpace of a trimmed text is that text.
pub trim_space_idem : (s : String) → trim_space (trim_space s) ≡ trim_space s
unfolding trim_space
trim_space_idem s =
    ap trim_right (
      trim_left_black (trim_right (trim_left s))
        (trim_right-starts_black (trim_left s) (trim_left-starts_black s)))
    ∙ trim_right_idem (trim_left s)

pub valid_id-ne_empty : (v : String) → valid_id v ≡ true → (v == "") ≡ false
unfolding valid_id
valid_id-ne_empty String.[] h = cc
valid_id-ne_empty (String.◌∷◌ c s) h = elim (Bool-cases (String.◌∷◌ c s == "")) [
  | inl e ↦ absurd (cons≢nil ((eq_iff (String.◌∷◌ c s) "").0 e))
  | inr e ↦ e
]

pub matches_name_refl : (s : String) → matches_name s s ≡ true
unfolding matches_name
matches_name_refl String.[] = refl
matches_name_refl (String.◌∷◌ c s) = rw (eqb_refl (fold_code (code c))) (matches_name_refl s)
