-- ===== src/Agreement/TargetChange/Rows.antt =====
-- The tables after an accepted change of a target.
use lazarus.Base.{
  [], ◌∷◌, select, ℕ, String, ◌≡◌, refl, true, false, ◌==◌, arith, find, update_first, map, eq_iff,
  select-update_first, view-update_first, find-view, map_option,
}
use lazarus.Json.{Raw}
use lazarus.Errors.{ok}
use lazarus.Model.{
  Time, next_version, is_positive, AuditContext, Maintenance, Target, TargetTransitionResult,
}
use lazarus.Tables.{Db, is_target, find_target, targets_of, update_target, update_maintenance}
use lazarus.Journal.{append_event, audit_values}
use lazarus.Replay.{has_name, set_entry}
use lazarus.Agreement.{all, List, entry_of, input_of, in_range}
use lazarus.Agreement.Frame.{set_maintenance}
use lazarus.Mutations.Target.{target_event, record_target_change}

-- the rows of the target and of its maintenance, before the event
abbrev pub set_target : Time → String → ℕ → Target → Target
set_target now to version x = record x { state = to; version = version; updated_at = now }

abbrev pub target_rows : Time → Maintenance → Target → String → Db → Db
target_rows now m t to db = record db {
  maintenances =
      update_first (λ x. x.id == m.id) (set_maintenance now m.state (next_version m.version))
        db.maintenances;
  targets =
      update_first (is_target m.id t.id) (set_target now to (next_version t.version)) db.targets;
}

pub record_target_change-append :
    (type : String) (now : Time) (m : Maintenance) (t : Target) (to : String) (audit : AuditContext)
    (payload : Raw) (db db' : Db) (res : TargetTransitionResult)
    → record_target_change type now m t to audit payload db ≡ ok (res, db')
    → (append_event
          (target_event type now m t to (audit_values audit) payload)
          (target_rows now m t to db)
        ≡ ok db')
      × (is_positive (next_version t.version) ≡ true)
      × (is_positive (next_version m.version) ≡ true)
unfolding record_target_change update_target update_maintenance
record_target_change-append type now m t to audit payload db db' res h = ground arith

module _ (now : Time) (m : Maintenance) (t : Target) (to : String) (db : Db) where
  pub targets_of-target_rows_other :
      (id : String)
      → (m.id == id) ≡ false
      → targets_of id (target_rows now m t to db) ≡ targets_of id db
  unfolding targets_of
  targets_of-target_rows_other id apart =
      select-update_first (is_target m.id t.id) (λ x. x.maintenance_id == id)
        (set_target now to (next_version t.version)) (λ x. refl)
        (λ x e. rw ((eq_iff x.maintenance_id m.id).0 (ground (arith, e))) apart) db.targets

  pub entries-target_rows :
      map entry_of (targets_of m.id (target_rows now m t to db))
      ≡ update_first
          (has_name t.id)
          (set_entry to (next_version t.version))
          (map entry_of (targets_of m.id db))
  unfolding targets_of
  entries-target_rows =
      view-update_first (is_target m.id t.id) (λ x. x.maintenance_id == m.id) (has_name t.id)
        entry_of (λ x. refl) (set_target now to (next_version t.version))
        (set_entry to (next_version t.version)) (λ x. refl) (λ x. refl) db.targets

pub find-entry :
    (mid id : String) (db : Db)
    → find (has_name id) (map entry_of (targets_of mid db))
      ≡ map_option entry_of (find_target mid id db)
unfolding targets_of find_target
find-entry mid id db =
    find-view (is_target mid id) (λ x. x.maintenance_id == mid) (has_name id) entry_of (λ x. refl)
      db.targets

module _ (now : Time) (m : Maintenance) (t : Target) (to : String) (db : Db) where
  -- the rows keep what they have of the capture
  pub inputs-target_rows :
      map input_of (targets_of m.id (target_rows now m t to db)) ≡ map input_of (targets_of m.id db)
  unfolding targets_of
  inputs-target_rows = same db.targets
    where
      same :
          (ts : List Target)
          → map input_of (
              select
                (λ x. x.maintenance_id == m.id)
                (update_first
                  (is_target m.id t.id)
                  (set_target now to (next_version t.version))
                  ts))
            ≡ map input_of (select (λ x. x.maintenance_id == m.id) ts)
      same [] = refl
      same (x ∷ xs) = ground (arith, same xs)

  pub fit-target_rows :
      is_positive (next_version t.version) ≡ true
      → all in_range (targets_of m.id db) ≡ true
      → all in_range (targets_of m.id (target_rows now m t to db)) ≡ true
  unfolding targets_of is_positive
  fit-target_rows positive = fits db.targets
    where
      fits :
          (ts : List Target)
          → all in_range (select (λ x. x.maintenance_id == m.id) ts) ≡ true
          → all in_range (
              select
                (λ x. x.maintenance_id == m.id)
                (update_first
                  (is_target m.id t.id)
                  (set_target now to (next_version t.version))
                  ts))
            ≡ true
      fits [] h = refl
      fits (x ∷ xs) h = ground (arith, positive, h, fits xs)
