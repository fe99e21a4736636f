-- ===== src/Backups/Cleanup/Complete.antt =====
-- The names that `cleanupBackupTemps` of internal/store/backup.go spares.
use lazarus.Base.{
  ℕ, String, ◌≡◌, sym, ap, ◌∙◌, inl, inr, Bool, true, false, ◌&&◌, ◌==◌, eq_iff, eqb, List, [], ◌∷◌,
  arith, Bool-cases,
}
use lazarus.Backups.Rotation.{
  Entry, ends_db, is_backup_file, manifest_name, has_entry, remove_entry,
}
use lazarus.Backups.Rotation.Newest.{
  last_code, last_code-ends_db, last_code-manifest_name, has_entry-remove_entry,
}
use lazarus.Backups.Artifact.{ends_manifest, trim_manifest, manifest_name-trim_manifest}
use lazarus.Backups.Cleanup.{
  is_backup_temp_name, sweep, is_temp, is_incomplete, is_orphan, then_sweep, cleanup_backup_temps,
}
use lazarus.Backups.Cleanup.Names.{
  is_temp_code, last_code-is_backup_temp_name, apart_by_last, trim_manifest-manifest_name,
}

-- the backup and its manifest are there
abbrev pub is_complete : String → List Entry → Bool
is_complete name dir = has_entry name dir && has_entry (manifest_name name) dir

-- a loop that spares a complete backup leaves it complete
sweep-is_complete :
    (fails : String → Bool) (stale : Entry → List Entry → Bool) (name : String)
    → ((e : Entry) (dir : List Entry)
        → is_complete name dir ≡ true
        → stale e dir ≡ true
        → ((e.name == name) ≡ false) × ((e.name == manifest_name name) ≡ false))
    → (es dir : List Entry) → is_complete name dir ≡ true
    → is_complete name (sweep fails stale es dir).1 ≡ true
unfolding sweep
sweep-is_complete fails stale name spares [] dir h = h
sweep-is_complete fails stale name spares (e ∷ es) dir h = elim (Bool-cases (stale e dir)) [
  | inr kept ↦ rw (kept, sweep) (sweep-is_complete fails stale name spares es dir h)
  | inl found ↦ elim (Bool-cases (fails e.name)) [
    | inl stuck ↦ rw (found, stuck, sweep) h
    | inr gone ↦
        let apart = spares e dir h found in
        rw (found, gone, sweep)
          (sweep-is_complete fails stale name spares es (remove_entry e.name dir) (
            ground (
              arith,
              h,
              has_entry-remove_entry name e.name dir apart.0,
              has_entry-remove_entry (manifest_name name) e.name dir apart.1,
            )))
  ]
]

-- the names of a backup and of its manifest, by their last characters
apart_by_codes :
    (s name : String)
    → ends_db name ≡ true
    → eqb (last_code s) 98 ≡ false
    → eqb (last_code s) 110 ≡ false
    → ((s == name) ≡ false) × ((s == manifest_name name) ≡ false)
apart_by_codes s name db b n =
    let of_database : (s == name) ≡ false =
      apart_by_last s name (ap (λ k. eqb (last_code s) k) (last_code-ends_db name db) ∙ b) in
    let of_manifest : (s == manifest_name name) ≡ false =
      apart_by_last s (manifest_name name)
        (ap (λ k. eqb (last_code s) k) (last_code-manifest_name name) ∙ n) in
    (of_database, of_manifest)

temp-spares :
    (name : String)
    → ends_db name ≡ true
    → (e : Entry) (dir : List Entry) → is_complete name dir ≡ true
    → is_temp e dir ≡ true
    → ((e.name == name) ≡ false) × ((e.name == manifest_name name) ≡ false)
unfolding is_temp
temp-spares name db e dir h found =
    let temp : is_backup_temp_name e.name ≡ true = ground (arith, found) in
    let codes = last_code-is_backup_temp_name e.name temp in
    apart_by_codes e.name name db (other (last_code e.name) codes)
      (another (last_code e.name) codes)
  where
    other : (c : ℕ) → is_temp_code c ≡ true → eqb c 98 ≡ false
    other c k = ground (arith, k)

    another : (c : ℕ) → is_temp_code c ≡ true → eqb c 110 ≡ false
    another c k = ground (arith, k)

incomplete-spares :
    (name : String)
    → ends_db name ≡ true
    → (e : Entry) (dir : List Entry) → is_complete name dir ≡ true
    → is_incomplete e dir ≡ true
    → ((e.name == name) ≡ false) × ((e.name == manifest_name name) ≡ false)
unfolding is_incomplete is_backup_file
incomplete-spares name db e dir h found = (itself, of_manifest)
  where
    missing : has_entry (manifest_name e.name) dir ≡ false
    missing = ground (arith, found)

    database : ends_db e.name ≡ true
    database = ground (arith, found)

    present : has_entry (manifest_name name) dir ≡ true
    present = ground (arith, h)

    itself : (e.name == name) ≡ false
    itself = elim (Bool-cases (e.name == name)) [
      | inl k ↦
          let same = ap (λ t. has_entry (manifest_name t) dir) ((eq_iff e.name name).0 k) in
          ground (arith, same, missing, present)
      | inr k ↦ k
    ]

    of_manifest : (e.name == manifest_name name) ≡ false
    of_manifest = apart_by_last e.name (manifest_name name) (
        ap (λ k. eqb k (last_code (manifest_name name))) (last_code-ends_db e.name database)
        ∙ ap (λ k. eqb 98 k) (last_code-manifest_name name))

orphan-spares :
    (name : String)
    → ends_db name ≡ true
    → (e : Entry) (dir : List Entry) → is_complete name dir ≡ true
    → is_orphan e dir ≡ true
    → ((e.name == name) ≡ false) × ((e.name == manifest_name name) ≡ false)
unfolding is_orphan
orphan-spares name db e dir h found = (of_database, itself)
  where
    missing : has_entry (trim_manifest e.name) dir ≡ false
    missing = ground (arith, found)

    manifest : ends_manifest e.name ≡ true
    manifest = ground (arith, found)

    present : has_entry name dir ≡ true
    present = ground (arith, h)

    last : last_code e.name ≡ 110
    last =
        ap last_code (sym (manifest_name-trim_manifest e.name manifest))
        ∙ last_code-manifest_name (trim_manifest e.name)

    of_database : (e.name == name) ≡ false
    of_database =
        apart_by_last e.name name
          (ap (λ k. eqb k (last_code name)) last ∙ ap (λ k. eqb 110 k) (last_code-ends_db name db))

    itself : (e.name == manifest_name name) ≡ false
    itself = elim (Bool-cases (e.name == manifest_name name)) [
      | inl k ↦
          let same =
            ap (λ t. has_entry (trim_manifest t) dir) ((eq_iff e.name (manifest_name name)).0 k)
            ∙ ap (λ t. has_entry t dir) (trim_manifest-manifest_name name) in
          ground (arith, same, missing, present)
      | inr k ↦ k
    ]

-- a further loop keeps what the one before kept
then_sweep-is_complete :
    (fails : String → Bool) (stale : Entry → List Entry → Bool) (name : String)
    → ((e : Entry) (dir : List Entry)
        → is_complete name dir ≡ true
        → stale e dir ≡ true
        → ((e.name == name) ≡ false) × ((e.name == manifest_name name) ≡ false))
    → (earlier : Bool × List Entry) → is_complete name earlier.1 ≡ true
    → is_complete name (then_sweep fails stale earlier).1 ≡ true
then_sweep-is_complete fails stale name spares (false, dir) h = h
then_sweep-is_complete fails stale name spares (true, dir) h =
    sweep-is_complete fails stale name spares dir dir h

-- Clearing incomplete backups keeps every complete one: if a directory has an entry for a name that
-- ends in `.db` and an entry for its manifest, it has both when cleanupBackupTemps returns, also
-- when a removal fails and it ends early.
pub cleanup_backup_temps-is_complete :
    (fails : String → Bool) (name : String) (dir : List Entry)
    → ends_db name ≡ true
    → is_complete name dir ≡ true
    → is_complete name (cleanup_backup_temps fails dir).1 ≡ true
unfolding cleanup_backup_temps
cleanup_backup_temps-is_complete fails name dir db h =
    then_sweep-is_complete fails is_orphan name (orphan-spares name db)
      (then_sweep fails is_incomplete (sweep fails is_temp dir dir))
      (then_sweep-is_complete fails is_incomplete name (incomplete-spares name db)
        (sweep fails is_temp dir dir)
        (sweep-is_complete fails is_temp name (temp-spares name db) dir dir h))
