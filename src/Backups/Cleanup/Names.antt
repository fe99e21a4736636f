-- ===== src/Backups/Cleanup/Names.antt =====
-- The names that `isBackupTempName` of internal/store/backup.go and the suffixes of backups tell
-- apart.
use lazarus.Base.{
  ℕ, suc, ◌+◌, String, ◌≡◌, refl, ap, ◌∙◌, inl, inr, Bool, true, false, ◌||◌, ◌==◌, eq_iff, eqb,
  arith, Bool-cases,
}
use lazarus.Backups.Rotation.{manifest_name}
use lazarus.Backups.Rotation.Newest.{last_code}
use lazarus.Backups.Artifact.{trim_manifest}
use lazarus.Backups.Cleanup.{is_backup_temp_name}

abbrev pub is_temp_code : ℕ → Bool
is_temp_code c = eqb c 112 || eqb c 108 || eqb c 109

-- the last character of a temporary name is no `b` and no `n`
pub last_code-is_backup_temp_name :
    (s : String) → is_backup_temp_name s ≡ true → is_temp_code (last_code s) ≡ true
unfolding is_backup_temp_name
last_code-is_backup_temp_name String.[] h = ground (arith, h)
last_code-is_backup_temp_name (String.◌∷◌ c s) h = whole ".tmp" refl λ a. whole ".tmp-wal" refl λ b.
    whole ".tmp-shm" refl λ d.
      whole ".tmp-journal" refl
        λ e. further s (ground (arith, h, a, b, d, e)) (last_code-is_backup_temp_name s)
  where
    whole :
        (suffix : String)
        → is_temp_code (last_code suffix) ≡ true
        → ((String.◌∷◌ c s == suffix) ≡ false → is_temp_code (last_code (String.◌∷◌ c s)) ≡ true)
        → is_temp_code (last_code (String.◌∷◌ c s)) ≡ true
    whole suffix good other = elim (Bool-cases (String.◌∷◌ c s == suffix)) [
      | inl e ↦ ap (λ t. is_temp_code (last_code t)) ((eq_iff (String.◌∷◌ c s) suffix).0 e) ∙ good
      | inr e ↦ other e
    ]

    further :
        (t : String)
        → is_backup_temp_name t ≡ true
        → (is_backup_temp_name t ≡ true → is_temp_code (last_code t) ≡ true)
        → is_temp_code (last_code (String.◌∷◌ c t)) ≡ true
    further String.[] k rest = ground (arith, k)
    further (String.◌∷◌ d t) k rest = rest k

pub apart_by_last : (s t : String) → eqb (last_code s) (last_code t) ≡ false → (s == t) ≡ false
apart_by_last s t h = elim (Bool-cases (s == t)) [
  | inl e ↦
      let same : last_code s ≡ last_code t = ap last_code ((eq_iff s t).0 e) in
      ground (arith, h, same)
  | inr e ↦ e
]

-- the number of characters
abbrev characters : String → ℕ
characters String.[] = 0
characters (String.◌∷◌ c s) = suc (characters s)

characters-manifest_name : (s : String) → characters (manifest_name s) ≡ characters s + 14
characters-manifest_name String.[] = refl
characters-manifest_name (String.◌∷◌ c s) =
    let shorter : characters (manifest_name s) ≡ characters s + 14 = characters-manifest_name s in
    omega (arith, shorter)

pub trim_manifest-manifest_name : (s : String) → trim_manifest (manifest_name s) ≡ s
unfolding trim_manifest
trim_manifest-manifest_name String.[] = refl
trim_manifest-manifest_name (String.◌∷◌ c s) =
    elim (Bool-cases (String.◌∷◌ c (manifest_name s) == ".manifest.json")) [
      | inl e ↦
          let long : suc (characters (manifest_name s)) ≡ 14 =
            ap characters ((eq_iff (String.◌∷◌ c (manifest_name s)) ".manifest.json").0 e) in
          let counted : characters (manifest_name s) ≡ characters s + 14 =
            characters-manifest_name s in
          absurd (omega (arith, long, counted))
      | inr e ↦ rw e (ap (λ t. String.◌∷◌ c t) (trim_manifest-manifest_name s))
    ]
