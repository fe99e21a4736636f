-- ===== src/Exclusion/Operations.antt =====
-- Observations and the changes of targets and maintenances keep the locks exclusive.
use lazarus.Base.{
  ◌+◌, String, ◌≡◌, refl, ap, ◌∙◌, inl, inr, Bool, true, false, Option, none, some, List, [], ◌∷◌,
  map, arith, ◌==◌, eq_iff, all, find, update, update_first, Bool-cases,
}
use lazarus.Json.{Raw}
use lazarus.Errors.{ok}
use lazarus.Model.{Time, AuditContext, StateChange, Maintenance, Target, Event, next_version}
use lazarus.Lifecycle.{valid_maintenance_transition, is_maintenance_terminal}
use lazarus.Lifecycle.Graph.{maintenance_edges_sound}
use lazarus.Precondition.{VersionPrecondition}
use lazarus.Tables.{Db, find_maintenance, is_open, is_target, bump_targets}
use lazarus.Tables.Keys.{find-holds_id}
use lazarus.Tables.Write.{write-keeps}
use lazarus.Journal.Written.{with_row, append_event-IsAppended}
use lazarus.Mutations.Change.{
  transition_maintenance, checked_maintenance_change, maintenance_change_allowed,
}
use lazarus.Mutations.Change.Accepted.{accepted as change_accepted}
use lazarus.Mutations.Target.{transition_target, checked_target_change}
use lazarus.Mutations.Target.Guarded.{body}
use lazarus.Mutations.Target.Accepted.{accepted as target_accepted}
use lazarus.Mutations.Observe.{add_observation, checked_observation}
use lazarus.Mutations.Observe.Accepted.{accepted as observe_accepted}
use lazarus.Agreement.Frame.{find-set_other}
use lazarus.Agreement.TargetChange.Rows.{target_rows, set_target, record_target_change-append}
use lazarus.Agreement.MaintenanceChange.Rows.{maintenance_rows, record_maintenance_change-append}
use lazarus.Exclusion.{lock_of, activity, Exclusive}
use lazarus.Exclusion.Keys.{Key, any_clash, weaker, any_clash-fewer}

-- tables with the same lock keys and no newly active owner
pub Exclusive-weaker :
    (db db' : Db)
    → map lock_of db'.targets ≡ map lock_of db.targets
    → all (weaker (activity db) (activity db')) (map lock_of db.targets) ≡ true
    → Exclusive db
    → Exclusive db'
Exclusive-weaker db db' keys fewer old =
    ap (any_clash (activity db')) keys
    ∙ any_clash-fewer (activity db) (activity db') (map lock_of db.targets) fewer old

pub all-pointwise : (p : Key → Bool) (ks : List Key) → ((k : Key) → p k ≡ true) → all p ks ≡ true
all-pointwise p [] h = refl
all-pointwise p (k ∷ ks) h = rw (h k) (all-pointwise p ks h)

-- a change of the row of an open maintenance activates nothing
module _ (f : Maintenance → Maintenance) (keeps : (x : Maintenance) → (f x).id ≡ x.id)
    (m : Maintenance) (db db' : Db)
    (rows : db'.maintenances ≡ update_first (λ x. x.id == m.id) f db.maintenances)
    (found : find_maintenance m.id db ≡ some m) (alive : is_open m.state ≡ true) where
  set-activity : (id : String) → weaker (activity db) (activity db') ("", id) ≡ true
  unfolding activity find_maintenance
  set-activity id = elim (Bool-cases (m.id == id)) [
    | inl e ↦
        let active : activity db id ≡ true =
          rw (← (eq_iff m.id id).0 e) (rw (found, activity) alive) in
        ground (arith, active)
    | inr e ↦
        let same : find (λ x. x.id == id) db'.maintenances
            ≡ find (λ x. x.id == id) db.maintenances =
          ap (find (λ x. x.id == id)) rows ∙ find-set_other f keeps m.id id db.maintenances e in
        let active : activity db' id ≡ activity db id =
          ap
            (λ (o : Option Maintenance). elim o as (λ _. Bool) [
              | none ↦ false
              | some x ↦ is_open x.state
            ])
            same in
        ground (arith, active)
  ]

  pub set-Exclusive :
      map lock_of db'.targets ≡ map lock_of db.targets → Exclusive db → Exclusive db'
  set-Exclusive keys =
      Exclusive-weaker db db' keys
        (all-pointwise _ (map lock_of db.targets) (λ k. set-activity k.1))

pub terminal-open : (s : String) → is_maintenance_terminal s ≡ false → is_open s ≡ true
unfolding is_maintenance_terminal
terminal-open s h = ground (arith, h)

target-keys :
    (now : Time) (m : Maintenance) (t : Target) (to : String) (ts : List Target)
    → map lock_of
        (update_first (is_target m.id t.id) (set_target now to (next_version t.version)) ts)
      ≡ map lock_of ts
target-keys now m t to [] = refl
target-keys now m t to (x ∷ xs) = ground (arith, target-keys now m t to xs)

bump-keys :
    (id : String) (now : Time) (ts : List Target)
    → map lock_of (
        update
          (λ t. t.maintenance_id == id)
          (λ t. record t { version = t.version + 1; updated_at = now })
          ts)
      ≡ map lock_of ts
bump-keys id now [] = refl
bump-keys id now (x ∷ xs) = ground (arith, bump-keys id now xs)

maintenance-keys :
    (now : Time) (m : Maintenance) (to : String) (db : Db)
    → map lock_of (maintenance_rows now m to db).targets ≡ map lock_of db.targets
unfolding bump_targets
maintenance-keys now m to db = ground (arith, bump-keys m.id now db.targets)

pub row-Exclusive : (e : Event) (db : Db) → Exclusive db → Exclusive (with_row e db)
unfolding activity find_maintenance
row-Exclusive e db old = old

pub add_observation-Exclusive :
    (now : Time) (mid tid : String) (payload : Raw) (precondition : VersionPrecondition)
    (audit : AuditContext) (db : Db)
    → Exclusive db
    → Exclusive (add_observation now mid tid payload precondition audit db).1
unfolding add_observation
add_observation-Exclusive now mid tid payload precondition audit db old =
    write-keeps Exclusive db (checked_observation now mid tid payload precondition audit) old
      λ res db' done.
        elim (observe_accepted now mid tid payload precondition audit db db' res done) [
          | inl same ↦ rw same old
          | inr a ↦ rw ((append_event-IsAppended _ _ _ a.appended).written) (row-Exclusive _ db old)
        ]

pub transition_target-Exclusive :
    (now : Time) (mid tid : String) (change : StateChange) (precondition : VersionPrecondition)
    (audit : AuditContext) (db : Db)
    → Exclusive db
    → Exclusive (transition_target now mid tid change precondition audit db).1
unfolding transition_target
transition_target-Exclusive now mid tid change precondition audit db old =
    write-keeps Exclusive db (checked_target_change now mid tid change precondition audit) old
      λ res db' done.
        let b = body now mid tid change precondition audit db res db' done in
        let a = target_accepted now mid tid change precondition audit b.0 db db' res b.1 in
        let rows =
          record_target_change-append a.type now a.m a.t change.state audit b.0 db db' res
            a.recorded in
        rw ((append_event-IsAppended _ _ _ rows.0).written) (
          row-Exclusive _ (target_rows now a.m a.t change.state db) (
            set-Exclusive _ (λ x. refl) a.m db (target_rows now a.m a.t change.state db) refl
              (ap (λ i. find_maintenance i db) (find-holds_id mid db a.found) ∙ a.found)
              (terminal-open a.m.state a.alive) (target-keys now a.m a.t change.state db.targets)
              old))

allowed-edge :
    (m : Maintenance) (change : StateChange) (reopened : String) (db : Db) {type : String}
    → maintenance_change_allowed m change reopened db ≡ ok type
    → valid_maintenance_transition m.state change.state ≡ true
unfolding maintenance_change_allowed
allowed-edge m change reopened db allowed = ground (arith, allowed)

pub transition_maintenance-Exclusive :
    (now : Time) (id : String) (change : StateChange) (precondition : VersionPrecondition)
    (audit : AuditContext) (db : Db)
    → Exclusive db
    → Exclusive (transition_maintenance now id change precondition audit db).1
unfolding transition_maintenance
transition_maintenance-Exclusive now id change precondition audit db old =
    write-keeps Exclusive db (checked_maintenance_change now id change precondition audit) old
      λ res db' done.
        let a = change_accepted now id change precondition audit db db' res done in
        let rows =
          record_maintenance_change-append a.type now a.m change.state audit a.payload db db' res
            a.recorded in
        rw ((append_event-IsAppended _ _ _ rows.0).written) (
          row-Exclusive _ (maintenance_rows now a.m change.state db) (
            set-Exclusive _ (λ x. refl) a.m db (maintenance_rows now a.m change.state db) refl
              (ap (λ i. find_maintenance i db) (find-holds_id id db a.found) ∙ a.found)
              (changed-open a.m change a.reopened a.type db a.allowed)
              (maintenance-keys now a.m change.state db) old))
  where
    changed-open :
        (m : Maintenance) (change : StateChange) (reopened type : String) (db : Db)
        → maintenance_change_allowed m change reopened db ≡ ok type
        → is_open m.state ≡ true
    changed-open m change reopened type db allowed =
        let sound =
          maintenance_edges_sound m.state change.state
            (allowed-edge m change reopened db allowed) in
        ground (arith, sound)
