-- ===== src/Mutations/Change/Guarded.antt =====
-- What an accepted change of a maintenance guarantees.
use lazarus.Base.{String, ◌≡◌, true, false, not, ◌||◌, ◌==◌, eqb, some, all, length, arith}
use lazarus.Errors.{ok}
use lazarus.Model.{Time, AuditContext, StateChange, Maintenance, MaintenanceAggregate}
use lazarus.Lifecycle.{valid_maintenance_transition}
use lazarus.Lifecycle.Graph.{maintenance_edges_sound}
use lazarus.Precondition.{VersionPrecondition, match, require}
use lazarus.Payloads.{valid_justification}
use lazarus.Tables.{Db, find_maintenance, count_captures, targets_of}
use lazarus.Tables.Keys.{find-holds_id}
use lazarus.Tables.Write.{write-ok}
use lazarus.Mutations.Target.{is_admin}
use lazarus.Mutations.Change.{
  is_unresolved, exercised, maintenance_event_type, maintenance_change_allowed,
  checked_maintenance_change, transition_maintenance,
}
use lazarus.Mutations.Change.Accepted.{Accepted, accepted}
use lazarus.Mutations.Change.Barriers.{
  is_reconciled, validate_completion-all, validate_stopped_barrier-all,
}

-- the checks that an accepted change of a maintenance has passed
pub record IsGuarded (id : String) (change : StateChange) (precondition : VersionPrecondition)
    (audit : AuditContext) (db : Db) : Type 0 where
  pub m : Maintenance
  pub found : find_maintenance id db ≡ some m
  pub current : match precondition m.version ≡ true
  pub edge : valid_maintenance_transition m.state change.state ≡ true
  pub alive : (m.state == "completed" || m.state == "cancelled") ≡ false
  pub reopened :
      (m.state == "failed") ≡ true
      → (is_admin audit.role ≡ true) × (valid_justification change.justification ≡ ok tt)
  pub stopped :
      (change.state == "stopped") ≡ true
      → all (λ t. not (is_unresolved t)) (targets_of id db) ≡ true
  pub completed :
      (change.state == "completed") ≡ true
      → (eqb (count_captures id db) 1 ≡ true)
        × (all is_reconciled (targets_of id db) ≡ true)
        × (eqb (length (targets_of id db)) 0 ≡ false)
  pub cancelled :
      (change.state == "cancelled") ≡ true
      → (m.state == "captured") ≡ true
      → eqb (exercised id db) 0 ≡ true

module _ (now : Time) (id : String) (change : StateChange) (precondition : VersionPrecondition)
    (audit : AuditContext) (db : Db) (res : MaintenanceAggregate) where
  guarded :
      (db' : Db)
      → Accepted now id change precondition audit db db' res
      → IsGuarded id change precondition audit db
  unfolding maintenance_event_type maintenance_change_allowed require
  guarded db' a =
      let same = find-holds_id id db a.found in
      record {
        m = a.m;
        found = a.found;
        current = ground (arith, a.matched);
        edge = ground (arith, a.allowed);
        alive =
            ground
              (arith, maintenance_edges_sound a.m.state change.state (ground (arith, a.allowed)));
        reopened = λ s. ground (arith, a.typed, s);
        stopped = λ s. ground (arith, a.allowed, s, same, validate_stopped_barrier-all id db);
        completed = λ s. ground (arith, a.allowed, s, same, validate_completion-all id db);
        cancelled = λ s c. ground (arith, a.allowed, s, c, same);
      }

  -- An accepted change of a maintenance was made at an accepted version, along an edge of the
  -- table, and not on a completed or cancelled one. A failed one was reopened by an administrator
  -- with a valid justification; it stopped when every target was stopped or skipped; it was
  -- completed when captured, with at least one target and each restored or skipped; and it was
  -- cancelled after its capture only if no target had been worked on.
  pub transition_maintenance-IsGuarded :
      (transition_maintenance now id change precondition audit db).0 ≡ ok res
      → IsGuarded id change precondition audit db
  unfolding transition_maintenance
  transition_maintenance-IsGuarded h = guarded _ (
      accepted now id change precondition audit db _ res
        (write-ok db (checked_maintenance_change now id change precondition audit) h))
