-- ===== src/Api/IfMatch.antt =====
-- `versionPrecondition` of internal/api/server.go and `VersionETag` of internal/store/store.go: the
-- If-Match header. The values of the header are texts, whose characters past ASCII stand for
-- bytes past 0x7f.
pub mod Terminates
pub mod RoundTrip
use Prim.Native.Char.{Char, code, char}
use lazarus.Base.{
  ℕ, zero, suc, ◌+◌, String, Bool, true, false, not, ◌&&◌, ◌||◌, ◌==◌, ltb, leb, eqb, if◌then◌else◌,
  Option, none, some, List, [], ◌∷◌, ◌++◌,
}
use lazarus.Text.{trim_space}
use lazarus.Model.{is_positive}
use lazarus.Precondition.{VersionPrecondition}
use lazarus.Api.Header.{join_values}
use lazarus.Api.Decimal.{format_int, parse_int}

-- a text and a closing quote
abbrev pub closed : String → String
closed String.[] = "\""
closed (String.◌∷◌ c s) = String.◌∷◌ c (closed s)

unfoldable pub version_etag : ℕ → String
unfolding format_int
version_etag version = String.◌∷◌ (char 34 tt) (closed (format_int version))

unfoldable pub skip_blanks : String → String
skip_blanks String.[] = ""
skip_blanks (String.◌∷◌ c s) =
    let more = skip_blanks s in if eqb (code c) 32 || eqb (code c) 9 then more else String.◌∷◌ c s

-- strings.HasPrefix(raw, "W/"), and what follows
unfoldable pub drop_weak : String → Bool × String
drop_weak (String.◌∷◌ c (String.◌∷◌ d s)) =
    if eqb (code c) b'W' && eqb (code d) b'/'
    then (true, s)
    else (false, String.◌∷◌ c (String.◌∷◌ d s))
drop_weak s = (false, s)

-- what follows a character that must come first
unfoldable pub after : ℕ → String → Option String
after wanted String.[] = none
after wanted (String.◌∷◌ c s) = if eqb (code c) wanted then some s else none

abbrev pub is_etag_char : ℕ → Bool
is_etag_char c = eqb c 0x21 || (leb 0x23 c && leb c 0x7e) || leb 0x80 c

abbrev pub with_char : Char → Option (String × String) → Option (String × String)
with_char c none = none
with_char c (some (opaque, rest)) = some (String.◌∷◌ c opaque, rest)

-- the characters up to a quote, and what follows the quote
unfoldable pub scan_opaque : String → Option (String × String)
scan_opaque String.[] = none
scan_opaque (String.◌∷◌ c s) =
    let more = scan_opaque s in
    if eqb (code c) b'"'
    then some ("", s)
    else if is_etag_char (code c)
    then with_char c more
    else none

abbrev canonical_version : String → Option ℕ → List ℕ
unfolding format_int
canonical_version opaque none = []
canonical_version opaque (some version) =
    if is_positive version && format_int version == opaque then version ∷ [] else []

-- a version in the text that FormatInt gives it
unfoldable pub tag_versions : String → List ℕ
unfolding parse_int is_positive canonical_version
tag_versions opaque = canonical_version opaque (parse_int opaque)

abbrev taken : Bool → Option (String × String) → Option (List ℕ × String)
unfolding tag_versions skip_blanks
taken weak none = none
taken weak (some (opaque, rest)) = some (if weak then [] else tag_versions opaque, skip_blanks rest)

abbrev scanned : Bool → Option String → Option (List ℕ × String)
unfolding taken scan_opaque
scanned weak none = none
scanned weak (some quoted) = taken weak (scan_opaque quoted)

-- a round of the loop up to the blanks behind the tag: the version that it adds, and the rest
unfoldable pub one_tag : String → Option (List ℕ × String)
unfolding skip_blanks drop_weak after scanned
one_tag raw = let (weak, rest) = drop_weak (skip_blanks raw) in scanned weak (after b'"' rest)

-- what the loop ends with
pub data Tags : Type 0 where
  invalid : Tags
  versions : List ℕ → Tags
  out_of_fuel : Tags

abbrev pub with_versions : List ℕ → Tags → Tags
with_versions new (versions more) = versions (new ++ more)
with_versions new other = other

-- behind a comma the loop goes on, and something must follow
abbrev pub behind_comma : (String → Tags) → List ℕ → Option String → Tags
behind_comma rounds new none = invalid
behind_comma rounds new (some String.[]) = invalid
behind_comma rounds new (some (String.◌∷◌ c more)) = with_versions new (rounds (String.◌∷◌ c more))

-- behind a tag the header ends, or a comma stands
unfoldable pub behind_tag : (String → Tags) → Option (List ℕ × String) → Tags
unfolding after
behind_tag rounds none = invalid
behind_tag rounds (some (new, String.[])) = versions new
behind_tag rounds (some (new, String.◌∷◌ c rest)) =
    behind_comma rounds new (after b',' (String.◌∷◌ c rest))

-- the loop over the tags
unfoldable pub parse_tags : ℕ → String → Tags
unfolding one_tag behind_tag
parse_tags zero raw = out_of_fuel
parse_tags (suc f) String.[] = versions []
parse_tags (suc f) (String.◌∷◌ c s) = behind_tag (parse_tags f) (one_tag (String.◌∷◌ c s))

-- the number of characters
unfoldable pub size : String → ℕ
size String.[] = 0
size (String.◌∷◌ c s) = 1 + size s

-- a precondition, or the code of the error
pub data IfMatch : Type 0 where
  accepted : VersionPrecondition → IfMatch
  rejected : String → IfMatch

abbrev pub is_star : String → Bool
is_star (String.◌∷◌ c String.[]) = eqb (code c) b'*'
is_star _ = false

-- no version that is not positive matches
abbrev pub precondition_of : Tags → IfMatch
precondition_of (versions []) = accepted (record { any_version = false; versions = 0 ∷ [] })
precondition_of (versions (v ∷ vs)) = accepted (record { any_version = false; versions = v ∷ vs })
precondition_of _ = rejected "invalid_if_match"

-- the header without the spaces around it
unfoldable pub precondition_from : String → IfMatch
unfolding parse_tags size
precondition_from String.[] = rejected "if_match_required"
precondition_from (String.◌∷◌ c s) =
    if is_star (String.◌∷◌ c s)
    then accepted (record { any_version = true; versions = [] })
    else precondition_of (parse_tags (size (String.◌∷◌ c s) + 1) (String.◌∷◌ c s))

unfoldable pub version_precondition : List String → IfMatch
unfolding join_values trim_space precondition_from
version_precondition values = precondition_from (trim_space (join_values values))
