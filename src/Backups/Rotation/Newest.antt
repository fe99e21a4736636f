-- ===== src/Backups/Rotation/Newest.antt =====
-- The newest backups stay.
use Prim.Native.Char.{code}
use lazarus.Base.{
  ℕ, String, ◌≡◌, refl, ap, inl, inr, Bool, true, false, not, ◌&&◌, ◌==◌, eq_iff, List, [], ◌∷◌,
  arith, Bool-cases,
}
use lazarus.Backups.Rotation.{Entry, ends_db, manifest_name, has_entry, remove_entry}

-- the last character
abbrev pub last_code : String → ℕ
last_code String.[] = 0
last_code (String.◌∷◌ c String.[]) = code c
last_code (String.◌∷◌ c (String.◌∷◌ d s)) = last_code (String.◌∷◌ d s)

pub last_code-ends_db : (s : String) → ends_db s ≡ true → last_code s ≡ 98
unfolding ends_db
last_code-ends_db String.[] h = ground (arith, h)
last_code-ends_db (String.◌∷◌ c s) h = elim (Bool-cases (String.◌∷◌ c s == ".db")) [
  | inl e ↦ ap last_code ((eq_iff (String.◌∷◌ c s) ".db").0 e)
  | inr e ↦ further s (ground (arith, h, e)) (last_code-ends_db s)
]
  where
    further :
        (t : String)
        → ends_db t ≡ true
        → (ends_db t ≡ true → last_code t ≡ 98)
        → last_code (String.◌∷◌ c t) ≡ 98
    further String.[] k rest = ground (arith, k)
    further (String.◌∷◌ d t) k rest = rest k

pub last_code-manifest_name : (s : String) → last_code (manifest_name s) ≡ 110
last_code-manifest_name String.[] = refl
last_code-manifest_name (String.◌∷◌ c String.[]) = refl
last_code-manifest_name (String.◌∷◌ c (String.◌∷◌ d s)) = last_code-manifest_name (String.◌∷◌ d s)

pub has_entry-remove_entry :
    (name other : String) (dir : List Entry)
    → (other == name) ≡ false
    → has_entry name dir ≡ true
    → has_entry name (remove_entry other dir) ≡ true
has_entry-remove_entry name other [] apart h = ground (arith, h)
has_entry-remove_entry name other (e ∷ dir) apart h = ground (
  arith,
  h,
  apart,
  has_entry-remove_entry name other dir,
  eq_iff e.name name,
  eq_iff e.name other,
)

-- no name twice
abbrev pub are_distinct : List Entry → Bool
are_distinct [] = true
are_distinct (e ∷ es) = not (has_entry e.name es) && are_distinct es

-- a backup of the directory
abbrev is_listed : List Entry → Entry → Bool
is_listed dir e = ends_db e.name && has_entry e.name dir
