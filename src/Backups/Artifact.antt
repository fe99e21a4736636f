-- ===== src/Backups/Artifact.antt =====
-- The names that `BackupArtifact` of internal/store/artifacts.go looks for. filepath.Base leaves a name
-- without a separator as it is, so the test against it adds nothing to that for separators.
use Prim.Native.Char.{code}
use Prim.Native.String.{len}
use text.Mathlib.Text.{starts_with}
use lazarus.Base.{
  ℕ, String, ◌≡◌, refl, sym, ap, ◌∙◌, ◌⊎◌, inl, inr, Bool, true, false, ◌&&◌, ◌||◌, ◌==◌, eq_iff,
  leb, ltb, eqb, if◌then◌else◌, arith, Bool-cases,
}
use lazarus.Errors.{Result, ok, invalid, guard, refuse, ◌>>◌}
use lazarus.Backups.Rotation.{ends_db, manifest_name}

-- strings.ContainsAny(name, `/\`)
unfoldable pub has_separator : String → Bool
has_separator String.[] = false
has_separator (String.◌∷◌ c s) = eqb (code c) b'/' || eqb (code c) 92 || has_separator s

abbrev is_artifact_char : ℕ → Bool
is_artifact_char c =
    (leb b'a' c && leb c b'z')
    || (leb b'A' c && leb c b'Z')
    || (leb b'0' c && leb c b'9')
    || eqb c b'.'
    || eqb c b'_'
    || eqb c b'-'

-- the loop over the characters
unfoldable pub all_artifact_chars : String → Bool
all_artifact_chars String.[] = true
all_artifact_chars (String.◌∷◌ c s) = is_artifact_char (code c) && all_artifact_chars s

-- strings.HasSuffix(name, ".db.manifest.json")
unfoldable pub ends_manifest : String → Bool
ends_manifest String.[] = false
ends_manifest (String.◌∷◌ c s) = String.◌∷◌ c s == ".db.manifest.json" || ends_manifest s

-- strings.TrimSuffix(name, ".manifest.json")
unfoldable pub trim_manifest : String → String
trim_manifest String.[] = ""
trim_manifest (String.◌∷◌ c s) =
    let rest = trim_manifest s in
    if String.◌∷◌ c s == ".manifest.json" then "" else String.◌∷◌ c rest

unfoldable pub database_name : String → String
unfolding ends_manifest trim_manifest
database_name name = if ends_manifest name then trim_manifest name else name

-- the name of the database, for the name of an artifact that passes
unfoldable pub artifact_database : String → Result String
unfolding has_separator all_artifact_chars database_name ends_db
artifact_database name = do
  refuse (eqb (len name) 0 || ltb 200 (len name) || has_separator name) invalid
  guard (all_artifact_chars name) invalid
  guard (starts_with (database_name name) "lazarus-" && ends_db (database_name name)) invalid
  ok (database_name name)

pub manifest_name-trim_manifest :
    (s : String) → ends_manifest s ≡ true → manifest_name (trim_manifest s) ≡ s
unfolding ends_manifest trim_manifest
manifest_name-trim_manifest String.[] h = ground (arith, h)
manifest_name-trim_manifest (String.◌∷◌ c s) h =
    elim (Bool-cases (String.◌∷◌ c s == ".manifest.json")) [
      | inl e ↦ rw e (sym ((eq_iff (String.◌∷◌ c s) ".manifest.json").0 e))
      | inr e ↦ elim (Bool-cases (String.◌∷◌ c s == ".db.manifest.json")) [
        | inl whole ↦
            let same : String.◌∷◌ c s ≡ ".db.manifest.json" =
              (eq_iff (String.◌∷◌ c s) ".db.manifest.json").0 whole in
            ap (λ t. manifest_name (trim_manifest t)) same ∙ sym same
        | inr part ↦
            rw e
              (ap (λ t. String.◌∷◌ c t) (manifest_name-trim_manifest s (ground (arith, h, part))))
      ]
    ]

-- what an accepted name is
pub record IsArtifact (name database : String) : Type 0 where
  pub plain : has_separator name ≡ false
  pub characters : all_artifact_chars name ≡ true
  pub prefixed : starts_with database "lazarus-" ≡ true
  pub suffixed : ends_db database ≡ true
  -- the database itself, or its manifest
  pub of_pair : (name ≡ database) ⊎ (name ≡ manifest_name database)

-- A name that is looked for has no separator and no unusual character, and is that of a backup or of
-- the manifest of one, the database that the name is resolved to.
pub artifact_database-IsArtifact :
    (name : String) {database : String}
    → artifact_database name ≡ ok database
    → IsArtifact name database
unfolding artifact_database
artifact_database-IsArtifact name {database} h =
    let resolved : database_name name ≡ database = ground (arith, h) in
    record {
      plain = ground (arith, h);
      characters = ground (arith, h);
      prefixed = ground (arith, h);
      suffixed = ground (arith, h);
      of_pair = pair (ends_manifest name) refl resolved;
    }
  where
    pair :
        (b : Bool)
        → ends_manifest name ≡ b
        → database_name name ≡ database
        → (name ≡ database) ⊎ (name ≡ manifest_name database)
    pair true e resolved =
        let trimmed : trim_manifest name ≡ database = ground (arith, e, resolved) in
        inr (sym (ap manifest_name (sym trimmed) ∙ manifest_name-trim_manifest name e))
    pair false e resolved = inl (ground (arith, e, resolved))
