-- ===== src/Exclusion.antt =====
-- No lock key is held by two maintenances that are open: `verifyLockExclusivity` of
-- internal/store/verify.go on the tables that the operations leave.
pub mod Keys
pub mod Operations
pub mod Capturing
pub mod Creation
use lazarus.Base.{
  map-append, ℕ, zero, suc, ◌+◌, ◌-◌, ◌*◌, ◌/◌, ◌%◌, ◌^◌, ◌≤◌, ◌<◌, String, ◌≡◌, refl, sym, ap, ◌∙◌,
  ◌≢◌, ◌↔◌, ◌⊎◌, inl, inr, Bool, true, false, not, ◌&&◌, ◌||◌, Option, none, some, List, [], ◌∷◌,
  ◌++◌, map, arith, ◌==◌, eq_iff, eq_refl, if◌then◌else◌, length, all, any, select, find, update,
  update_first, is_some, map_option, ltb, leb, eqb, eqb_refl, Bool-cases, Option-cases,
}
use lazarus.Errors.{Result, ok}
use lazarus.Model.{Target, Maintenance}
use lazarus.Tables.{Db, find_maintenance, insert_target, holds_lock, is_open}
use lazarus.Mutations.Capture.Accepted.{with_targets, insert_target-append}
use lazarus.Verify.{is_active, overlaps, verify_lock_exclusivity}
use Keys.{Key, clash, any_clash, any_clash-append}

abbrev pub lock_of : Target → Key
lock_of t = (t.lock_key, t.maintenance_id)

-- the maintenance is there and neither completed nor cancelled
unfoldable pub activity : Db → String → Bool
unfolding find_maintenance
activity db id = elim (find_maintenance id db) [ none ↦ false | some m ↦ is_open m.state ]

abbrev pub Exclusive : Db → Type 0
Exclusive db = any_clash (activity db) (map lock_of db.targets) ≡ false

-- The check of the verification passes.
pub Exclusive-verified : (db : Db) → Exclusive db → verify_lock_exclusivity db ≡ ok tt
unfolding verify_lock_exclusivity activity
Exclusive-verified db h = ground (arith, h, rows db.targets)
  where
    inner :
        (t : Target) (us : List Target)
        → any (overlaps db t) us ≡ any (clash (activity db) (lock_of t)) (map lock_of us)
    inner t [] = refl
    inner t (u ∷ us) = ground (arith, inner t us)

    rows :
        (ts : List Target)
        → any (λ t. any (overlaps db t) db.targets) ts
          ≡ any (λ k. any (clash (activity db) k) (map lock_of db.targets)) (map lock_of ts)
    rows [] = refl
    rows (t ∷ ts) = ground (arith, inner t db.targets, rows ts)

or-false : (a b : Bool) → (a || b) ≡ false → (a ≡ false) × (b ≡ false)
or-false a b h = ground (arith, h)

or-both : {a b : Bool} → a ≡ false → b ≡ false → (a || b) ≡ false
or-both h k = rw (h, k) refl

eq_sym : (a b : String) → (a == b) ≡ (b == a)
eq_sym a b = ground (arith, eq_iff a b, eq_iff b a)

holds_lock-activity :
    (db : Db) (lock_key : String) (x : Target)
    → holds_lock db lock_key x ≡ (x.lock_key == lock_key && activity db x.maintenance_id)
unfolding holds_lock activity
holds_lock-activity db lock_key x = refl

-- a row that the trigger lets pass does not clash
trigger-row :
    (active : String → Bool) (lock owner key other : String)
    → (not (other == owner) && (key == lock && active other)) ≡ false
    → clash active (lock, owner) (key, other) ≡ false
trigger-row active lock owner key other h =
    rw (eq_sym lock key, eq_sym owner other) (ground (arith, h))

trigger-clash :
    (db : Db) (t : Target) (xs : List Target)
    → any (λ x. not (x.maintenance_id == t.maintenance_id) && holds_lock db t.lock_key x) xs ≡ false
    → any (clash (activity db) (lock_of t)) (map lock_of xs) ≡ false
trigger-clash db t [] h = refl
trigger-clash db t (x ∷ xs) h =
    let (first, rest) = or-false _ _ h in
    or-both
      (trigger-row (activity db) t.lock_key t.maintenance_id x.lock_key x.maintenance_id (
        ap (λ b. not (x.maintenance_id == t.maintenance_id) && b)
          (sym (holds_lock-activity db t.lock_key x))
        ∙ first))
      (trigger-clash db t xs rest)

insert_target-trigger :
    (t : Target) (db db' : Db)
    → insert_target t db ≡ ok db'
    → any (λ x. not (x.maintenance_id == t.maintenance_id) && holds_lock db t.lock_key x) db.targets
      ≡ false
unfolding insert_target
insert_target-trigger t db db' h = ground (arith, h)

-- The trigger keeps an insertion from sharing a lock.
pub insert_target-Exclusive :
    (t : Target) (db db' : Db) → insert_target t db ≡ ok db' → Exclusive db → Exclusive db'
unfolding activity
insert_target-Exclusive t db db' h old = rw (insert_target-append t db db' h) (
    rw (map-append lock_of db.targets (t ∷ [])) (
      any_clash-append (activity db) (map lock_of db.targets) (lock_of t) old
        (trigger-clash db t db.targets (insert_target-trigger t db db' h))))
