-- ===== src/Agreement/MaintenanceChange/Rows.antt =====
-- The tables after an accepted change of a maintenance.
use lazarus.Base.{
  ℕ, ◌+◌, String, ◌≡◌, refl, sym, ap, ◌∙◌, inl, inr, true, false, ◌==◌, ltb, eqb, eq_iff, List, [],
  ◌∷◌, map, all, arith, update_first, if◌then◌else◌, Bool-cases, select-update, select-update_other,
}
use lazarus.Json.{Raw}
use lazarus.Errors.{ok}
use lazarus.Model.{
  Time, int64_limit, next_version, is_positive, AuditContext, Maintenance, Target,
  MaintenanceAggregate,
}
use lazarus.Tables.{
  Db, find_maintenance, count_captures, targets_of, list_targets, update_maintenance, bump_targets,
}
use lazarus.Journal.{append_event, audit_values}
use lazarus.Replay.{bump_entry}
use lazarus.Mutations.Change.{maintenance_event, record_maintenance_change, bump_if_captured}
use lazarus.Agreement.{entry_of, input_of, in_range}
use lazarus.Agreement.Frame.{set_maintenance}

abbrev pub maintenance_rows : Time → Maintenance → String → Db → Db
maintenance_rows now m to db = record (bump_if_captured m.id now db) {
  maintenances =
      update_first (λ x. x.id == m.id) (set_maintenance now to (next_version m.version))
        db.maintenances;
}

pub record_maintenance_change-append :
    (type : String) (now : Time) (m : Maintenance) (to : String) (audit : AuditContext)
    (payload : Raw) (db db' : Db) (res : MaintenanceAggregate)
    → record_maintenance_change type now m to audit payload db ≡ ok (res, db')
    → (append_event
          (maintenance_event type now m to (audit_values audit) payload)
          (maintenance_rows now m to db)
        ≡ ok db')
      × (is_positive (next_version m.version) ≡ true)
      × (all in_range (targets_of m.id db') ≡ true)
unfolding record_maintenance_change update_maintenance find_maintenance bump_targets list_targets
record_maintenance_change-append type now m to audit payload db db' res h = ground arith

abbrev pub bump_row : Time → Target → Target
bump_row now t = record t { version = t.version + 1; updated_at = now }

next_version-in_range : (v : ℕ) → ltb (v + 1) int64_limit ≡ true → next_version v ≡ v + 1
unfolding next_version
next_version-in_range v h = ground arith

entries-bump :
    (now : Time) (ts : List Target)
    → all in_range (map (bump_row now) ts) ≡ true
    → map entry_of (map (bump_row now) ts) ≡ map bump_entry (map entry_of ts)
entries-bump now [] h = refl
entries-bump now (t ∷ ts) h = ground (arith, next_version-in_range t.version, entries-bump now ts)

module _ (now : Time) (m : Maintenance) (to : String) (db : Db) where
  pub targets_of-maintenance_rows_other :
      (id : String)
      → (m.id == id) ≡ false
      → targets_of id (maintenance_rows now m to db) ≡ targets_of id db
  unfolding targets_of bump_targets
  targets_of-maintenance_rows_other id apart = elim (Bool-cases (eqb (count_captures m.id db) 1)) [
    | inl e ↦ rw e (
        select-update_other (λ x. x.maintenance_id == m.id) (λ x. x.maintenance_id == id)
          (bump_row now) (λ x. refl) (λ x h. rw ((eq_iff x.maintenance_id m.id).0 h) apart)
          db.targets)
    | inr e ↦ rw e refl
  ]

  pub targets_of-maintenance_rows : targets_of m.id (maintenance_rows now m to db) ≡ (
      if eqb (count_captures m.id db) 1
      then map (bump_row now) (targets_of m.id db)
      else targets_of m.id db)
  unfolding targets_of bump_targets
  targets_of-maintenance_rows = elim (Bool-cases (eqb (count_captures m.id db) 1)) [
    | inl e ↦
        rw e (select-update (λ x. x.maintenance_id == m.id) (bump_row now) (λ x. refl) db.targets)
    | inr e ↦ rw e refl
  ]

  pub entries-maintenance_rows :
      all in_range (targets_of m.id (maintenance_rows now m to db)) ≡ true
      → map entry_of (targets_of m.id (maintenance_rows now m to db)) ≡ (
          if eqb (count_captures m.id db) 1
          then map bump_entry (map entry_of (targets_of m.id db))
          else map entry_of (targets_of m.id db))
  entries-maintenance_rows fits = elim (Bool-cases (eqb (count_captures m.id db) 1)) [
    | inl e ↦
        let rows : targets_of m.id (maintenance_rows now m to db)
            ≡ map (bump_row now) (targets_of m.id db) =
          targets_of-maintenance_rows
          ∙ ap (λ b. if b then map (bump_row now) (targets_of m.id db) else targets_of m.id db) e in
        ap (map entry_of) rows
        ∙ entries-bump now (targets_of m.id db) (sym (ap (all in_range) rows) ∙ fits)
        ∙ sym (
            ap
              (λ b.
                if b
                then map bump_entry (map entry_of (targets_of m.id db))
                else map entry_of (targets_of m.id db))
              e)
    | inr e ↦
        ap (map entry_of) (
          targets_of-maintenance_rows
          ∙ ap (λ b. if b then map (bump_row now) (targets_of m.id db) else targets_of m.id db) e)
        ∙ sym (
            ap
              (λ b.
                if b
                then map bump_entry (map entry_of (targets_of m.id db))
                else map entry_of (targets_of m.id db))
              e)
  ]

  inputs-bump : (ts : List Target) → map input_of (map (bump_row now) ts) ≡ map input_of ts
  inputs-bump [] = refl
  inputs-bump (t ∷ ts) = ap (λ inputs. input_of t ∷ inputs) (inputs-bump ts)

  -- the rows keep what they have of the capture
  pub inputs-maintenance_rows :
      map input_of (targets_of m.id (maintenance_rows now m to db))
      ≡ map input_of (targets_of m.id db)
  inputs-maintenance_rows = elim (Bool-cases (eqb (count_captures m.id db) 1)) [
    | inl e ↦
        ap (map input_of) (
          targets_of-maintenance_rows
          ∙ ap (λ b. if b then map (bump_row now) (targets_of m.id db) else targets_of m.id db) e)
        ∙ inputs-bump (targets_of m.id db)
    | inr e ↦ ap (map input_of) (
        targets_of-maintenance_rows
        ∙ ap (λ b. if b then map (bump_row now) (targets_of m.id db) else targets_of m.id db) e)
  ]
