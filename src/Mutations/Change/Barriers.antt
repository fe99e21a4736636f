-- ===== src/Mutations/Change/Barriers.antt =====
-- The checks on all targets, read as statements about every target of a maintenance.
use lazarus.Base.{
  String, ◌≡◌, ◌↔◌, refl, Bool, true, false, not, ◌&&◌, eqb, List, [], ◌∷◌, all, arith, length,
  select,
}
use lazarus.Errors.{ok}
use lazarus.Model.{Target}
use lazarus.Lifecycle.{target_completion_allowed}
use lazarus.Tables.{Db, sort_by_id, insert_sorted, targets_of, count_captures}
use lazarus.Mutations.Change.{
  is_unresolved, check_reconciled, validate_completion, validate_stopped_barrier,
}

abbrev pub is_reconciled : Target → Bool
is_reconciled t = target_completion_allowed t.original_state t.state

all-insert_sorted :
    (p : Target → Bool) (t : Target) (ts : List Target)
    → all p (insert_sorted t ts) ≡ (p t && all p ts)
unfolding insert_sorted
all-insert_sorted p t [] = refl
all-insert_sorted p t (u ∷ us) = ground (arith, all-insert_sorted p t us)

pub all-sort_by_id : (p : Target → Bool) (ts : List Target) → all p (sort_by_id ts) ≡ all p ts
unfolding sort_by_id
all-sort_by_id p [] = refl
all-sort_by_id p (t ∷ ts) =
    ground (arith, all-insert_sorted p t (sort_by_id ts), all-sort_by_id p ts)

check_reconciled-all :
    (ts : List Target) → check_reconciled ts ≡ ok tt → all is_reconciled ts ≡ true
unfolding check_reconciled
check_reconciled-all [] h = refl
check_reconciled-all (t ∷ ts) h = ground (arith, check_reconciled-all ts)

select-none :
    (ts : List Target)
    → eqb (length (select is_unresolved ts)) 0 ≡ true
    → all (λ t. not (is_unresolved t)) ts ≡ true
select-none [] h = refl
select-none (t ∷ ts) h = ground (arith, select-none ts)

-- A maintenance that passes the completion check is captured, has a target, and each of its targets
-- is restored or skipped.
pub validate_completion-all :
    (id : String) (db : Db)
    → validate_completion id db ≡ ok tt
    → (eqb (count_captures id db) 1 ≡ true)
      × (all is_reconciled (targets_of id db) ≡ true)
      × (eqb (length (targets_of id db)) 0 ≡ false)
unfolding validate_completion
validate_completion-all id db h = ground (
  arith,
  all-sort_by_id is_reconciled (targets_of id db),
  check_reconciled-all (sort_by_id (targets_of id db)),
)

all-check_reconciled :
    (ts : List Target) → all is_reconciled ts ≡ true → check_reconciled ts ≡ ok tt
unfolding check_reconciled
all-check_reconciled [] h = refl
all-check_reconciled (t ∷ ts) h = ground (arith, h, all-check_reconciled ts)

-- A maintenance passes the completion check exactly if it has one capture, has a target, and each of
-- its targets is restored or skipped.
pub validate_completion_iff :
    (id : String) (db : Db)
    → (validate_completion id db ≡ ok tt) ↔ (
        (eqb (count_captures id db) 1 ≡ true)
        × (all is_reconciled (targets_of id db) ≡ true)
        × (eqb (length (targets_of id db)) 0 ≡ false))
unfolding validate_completion
validate_completion_iff id db = (
  validate_completion-all id db,
  λ h.
      let sorted : all is_reconciled (sort_by_id (targets_of id db)) ≡ true =
        rw (all-sort_by_id is_reconciled (targets_of id db)) h.1 in
      ground (arith, h.0, h.2, all-check_reconciled (sort_by_id (targets_of id db)) sorted),
)

-- No target of a maintenance that passes the barrier of `stopped` is unresolved.
pub validate_stopped_barrier-all :
    (id : String) (db : Db)
    → validate_stopped_barrier id db ≡ ok tt
    → all (λ t. not (is_unresolved t)) (targets_of id db) ≡ true
unfolding validate_stopped_barrier
validate_stopped_barrier-all id db h = ground (arith, select-none (targets_of id db))
