-- ===== src/Backups/Rotation.antt =====
-- `rotateBackupsWithAge` of internal/store/backup.go, over the entries of a
-- directory. os.Remove may fail, for the names that `fails` accepts; reading the directory, os.Stat of
-- an entry that is there, and the last sync of the directory succeed.
pub mod Newest
use Prim.Native.Nat.{Ordering}
use Prim.Native.String.{compare}
use text.Mathlib.Text.{starts_with}
use lazarus.Base.{
  ℕ, zero, suc, ◌+◌, String, Bool, true, false, not, ◌&&◌, ◌||◌, ◌==◌, ltb, leb, eqb, if◌then◌else◌,
  Option, none, some, List, [], ◌∷◌, length, any, select, find,
}
use lazarus.Model.{Time}

-- an entry that os.ReadDir lists; no name is there twice
pub record Entry : Type 0 where
  pub name : String
  pub is_dir : Bool
  pub modified : Time

-- strings.HasSuffix(name, ".db")
unfoldable pub ends_db : String → Bool
ends_db String.[] = false
ends_db (String.◌∷◌ c s) = String.◌∷◌ c s == ".db" || ends_db s

-- name + ".manifest.json"
abbrev pub manifest_name : String → String
manifest_name String.[] = ".manifest.json"
manifest_name (String.◌∷◌ c s) = String.◌∷◌ c (manifest_name s)

unfoldable pub is_backup_file : Entry → Bool
unfolding ends_db
is_backup_file e = not e.is_dir && starts_with e.name "lazarus-" && ends_db e.name

unfoldable pub insert_newest : Entry → List Entry → List Entry
insert_newest e [] = e ∷ []
insert_newest e (x ∷ xs) =
    let further = insert_newest e xs in
    elim (compare e.name x.name) [ Ordering.lt ↦ x ∷ further | _ ↦ e ∷ x ∷ xs ]

-- sort.Slice by the name, the greatest first
unfoldable pub newest_first : List Entry → List Entry
unfolding insert_newest
newest_first [] = []
newest_first (e ∷ es) = insert_newest e (newest_first es)

abbrev pub has_entry : String → List Entry → Bool
has_entry name dir = any (λ (e : Entry). e.name == name) dir

abbrev pub remove_entry : String → List Entry → List Entry
remove_entry name dir = select (λ (e : Entry). not (e.name == name)) dir

-- the age is looked up only under a minimum; an entry that is gone is passed over
unfoldable pub is_young : ℕ → Time → String → List Entry → Bool
is_young min_age now name dir = ltb 0 min_age && elim (find (λ (e : Entry). e.name == name) dir) [
  | none ↦ true
  | some e ↦ ltb now (e.modified + min_age)
]

-- a manifest that cannot be removed is left
abbrev pub remove_manifest : (String → Bool) → String → List Entry → List Entry
remove_manifest fails name dir =
    if fails (manifest_name name) then dir else remove_entry (manifest_name name) dir

-- the loop over the old backups: whether it ends, and the directory
unfoldable pub rotate_old : (String → Bool) → ℕ → Time → List Entry → List Entry → Bool × List Entry
unfolding is_young
rotate_old fails min_age now [] dir = (true, dir)
rotate_old fails min_age now (old ∷ rest) dir =
    let passed = rotate_old fails min_age now rest dir in
    let removed =
      rotate_old fails min_age now rest
        (remove_manifest fails old.name (remove_entry old.name dir)) in
    if is_young min_age now old.name dir
    then passed
    else if fails old.name
    then (false, dir)
    else removed

abbrev pub drop : ℕ → List Entry → List Entry
drop zero es = es
drop (suc n) [] = []
drop (suc n) (e ∷ es) = drop n es

unfoldable pub backups_in : List Entry → List Entry
unfolding is_backup_file newest_first
backups_in dir = newest_first (select is_backup_file dir)

unfoldable pub rotate_backups : (String → Bool) → ℕ → ℕ → Time → List Entry → Bool × List Entry
unfolding backups_in rotate_old
rotate_backups fails keep min_age now dir =
    if leb (length (backups_in dir)) keep
    then (true, dir)
    else rotate_old fails min_age now (drop keep (backups_in dir)) dir
