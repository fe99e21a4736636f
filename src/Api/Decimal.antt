-- ===== src/Api/Decimal.antt =====
-- The decimal texts of strconv.FormatInt and strconv.ParseInt, for an int64 that is not negative;
-- `parse_int` gives nothing where ParseInt fails or finds a negative number.
use Prim.Native.Char.{Char, char, code}
use lazarus.Base.{
  ℕ, zero, suc, ◌+◌, ◌-◌, ◌*◌, ◌/◌, ◌%◌, ◌<◌, String, ◌≡◌, refl, ap, ◌∙◌, inl, inr, Bool, true,
  false, ◌&&◌, Option, none, some, arith, ltb, leb, eqb, if◌then◌else◌, Bool-cases,
}
use lazarus.Model.{int64_limit}

unfoldable pub digit : ℕ → Char
digit zero = char 48 tt
digit (suc zero) = char 49 tt
digit (suc (suc zero)) = char 50 tt
digit (suc (suc (suc zero))) = char 51 tt
digit (suc (suc (suc (suc zero)))) = char 52 tt
digit (suc (suc (suc (suc (suc zero))))) = char 53 tt
digit (suc (suc (suc (suc (suc (suc zero)))))) = char 54 tt
digit (suc (suc (suc (suc (suc (suc (suc zero))))))) = char 55 tt
digit (suc (suc (suc (suc (suc (suc (suc (suc zero)))))))) = char 56 tt
digit _ = char 57 tt

-- the digits of a number before a text, by fuel
unfoldable pub format_onto : ℕ → ℕ → String → String
unfolding digit
format_onto zero n s = s
format_onto (suc f) n s =
    let more = format_onto f (n / 10) (String.◌∷◌ (digit (n % 10)) s) in
    if ltb n 10 then String.◌∷◌ (digit n) s else more

unfoldable pub format_int : ℕ → String
unfolding format_onto
format_int n = format_onto (n + 1) n ""

-- the digits that follow a number
unfoldable pub parse_from : ℕ → String → Option ℕ
parse_from n String.[] = some n
parse_from n (String.◌∷◌ c s) =
    let more = parse_from (n * 10 + (code c - 48)) s in
    if leb 48 (code c) && leb (code c) 57 then more else none

abbrev in_int64 : Option ℕ → Option ℕ
in_int64 none = none
in_int64 (some n) = if ltb n int64_limit then some n else none

-- at least one digit
unfoldable pub parse_digits : String → Option ℕ
unfolding parse_from
parse_digits String.[] = none
parse_digits (String.◌∷◌ c s) = in_int64 (parse_from 0 (String.◌∷◌ c s))

-- a sign may come first
unfoldable pub parse_int : String → Option ℕ
unfolding parse_digits
parse_int String.[] = none
parse_int (String.◌∷◌ c s) =
    if eqb (code c) b'+' then parse_digits s else parse_digits (String.◌∷◌ c s)

code-digit : (d : ℕ) → d < 10 → code (digit d) ≡ 48 + d
unfolding digit
code-digit zero h = refl
code-digit (suc zero) h = refl
code-digit (suc (suc zero)) h = refl
code-digit (suc (suc (suc zero))) h = refl
code-digit (suc (suc (suc (suc zero)))) h = refl
code-digit (suc (suc (suc (suc (suc zero))))) h = refl
code-digit (suc (suc (suc (suc (suc (suc zero)))))) h = refl
code-digit (suc (suc (suc (suc (suc (suc (suc zero))))))) h = refl
code-digit (suc (suc (suc (suc (suc (suc (suc (suc zero)))))))) h = refl
code-digit (suc (suc (suc (suc (suc (suc (suc (suc (suc zero))))))))) h = refl
code-digit (suc (suc (suc (suc (suc (suc (suc (suc (suc (suc d)))))))))) h = omega (arith, h)

-- a digit, as it is read
digit-read :
    (n d : ℕ)
    → d < 10
    → (leb 48 (code (digit d)) && leb (code (digit d)) 57 ≡ true)
      × (n * 10 + (code (digit d) - 48) ≡ n * 10 + d)
digit-read n d h = rw (code-digit d h) (ground (arith, h), omega (arith, h))

parse_from-digit :
    (n d : ℕ) (s : String)
    → d < 10
    → parse_from n (String.◌∷◌ (digit d) s) ≡ parse_from (n * 10 + d) s
unfolding parse_from
parse_from-digit n d s h = rw ((digit-read n d h).0) (ap (λ k. parse_from k s) (digit-read n d h).1)

shorter : (n f : ℕ) → n < suc f → ltb n 10 ≡ false → n / 10 < f
shorter n f h e = ground (arith, h, e)

parse_from-format_onto :
    (f n : ℕ) (s : String) → n < f → parse_from 0 (format_onto f n s) ≡ parse_from n s
unfolding format_onto
parse_from-format_onto zero n s h = ground (arith, h)
parse_from-format_onto (suc f) n s h = elim (Bool-cases (ltb n 10)) [
  | inl e ↦
      let alone : 0 * 10 + n ≡ n = omega arith in
      rw e (parse_from-digit 0 n s (ground (arith, e)) ∙ ap (λ k. parse_from k s) alone)
  | inr e ↦
      let less : n / 10 < f = shorter n f h e in
      let digit_less : n % 10 < 10 = omega arith in
      let whole : n / 10 * 10 + n % 10 ≡ n = omega arith in
      rw e (
        parse_from-format_onto f (n / 10) (String.◌∷◌ (digit (n % 10)) s) less
        ∙ parse_from-digit (n / 10) (n % 10) s digit_less
        ∙ ap (λ k. parse_from k s) whole)
]

abbrev pub starts_digit : String → Bool
starts_digit String.[] = false
starts_digit (String.◌∷◌ c s) = leb 48 (code c) && leb (code c) 57

format_onto-starts_digit : (f n : ℕ) (s : String) → n < f → starts_digit (format_onto f n s) ≡ true
unfolding format_onto
format_onto-starts_digit zero n s h = ground (arith, h)
format_onto-starts_digit (suc f) n s h = elim (Bool-cases (ltb n 10)) [
  | inl e ↦ rw e ((digit-read 0 n (ground (arith, e))).0)
  | inr e ↦
      let less : n / 10 < f = shorter n f h e in
      rw e (format_onto-starts_digit f (n / 10) (String.◌∷◌ (digit (n % 10)) s) less)
]

pub format_int-starts_digit : (n : ℕ) → starts_digit (format_int n) ≡ true
unfolding format_int
format_int-starts_digit n = format_onto-starts_digit (n + 1) n "" (omega arith)

parse_int-starts_digit :
    (s : String) → starts_digit s ≡ true → parse_int s ≡ in_int64 (parse_from 0 s)
unfolding parse_int parse_digits
parse_int-starts_digit String.[] h = ground (arith, h)
parse_int-starts_digit (String.◌∷◌ c s) h =
    let unsigned : eqb (code c) b'+' ≡ false = ground (arith, h) in rw unsigned refl

parse_from-format_int : (n : ℕ) → parse_from 0 (format_int n) ≡ some n
unfolding format_int parse_from
parse_from-format_int n = parse_from-format_onto (n + 1) n "" (omega arith)

-- A number below 2 ^ 63 is read back from its text.
pub parse_int-format_int : (n : ℕ) → ltb n int64_limit ≡ true → parse_int (format_int n) ≡ some n
parse_int-format_int n h =
    parse_int-starts_digit (format_int n) (format_int-starts_digit n)
    ∙ ap in_int64 (parse_from-format_int n)
    ∙ rw h refl

-- every character is a digit
abbrev pub all_digits : String → Bool
all_digits String.[] = true
all_digits (String.◌∷◌ c s) = leb 48 (code c) && leb (code c) 57 && all_digits s

format_onto-all_digits :
    (f n : ℕ) (s : String) → n < f → all_digits s ≡ true → all_digits (format_onto f n s) ≡ true
unfolding format_onto
format_onto-all_digits zero n s h rest = ground (arith, h)
format_onto-all_digits (suc f) n s h rest = elim (Bool-cases (ltb n 10)) [
  | inl e ↦ rw e (ground (arith, rest, (digit-read 0 n (ground (arith, e))).0))
  | inr e ↦
      let less : n / 10 < f = shorter n f h e in
      rw e (
        format_onto-all_digits f (n / 10) (String.◌∷◌ (digit (n % 10)) s) less
          (ground (arith, rest, (digit-read 0 (n % 10) (omega arith)).0)))
]

pub format_int-all_digits : (n : ℕ) → all_digits (format_int n) ≡ true
unfolding format_int
format_int-all_digits n = format_onto-all_digits (n + 1) n "" (omega arith) refl
