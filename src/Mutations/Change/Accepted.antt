-- ===== src/Mutations/Change/Accepted.antt =====
-- What an accepted change of a maintenance has passed, step by step.
use lazarus.Base.{String, ◌≡◌, true, some, arith}
use lazarus.Json.{Raw}
use lazarus.Errors.{ok}
use lazarus.Text.{valid_id, trim_space}
use lazarus.Model.{Time, AuditContext, StateChange, Maintenance, MaintenanceAggregate}
use lazarus.Precondition.{VersionPrecondition, require}
use lazarus.Tables.{Db, find_maintenance}
use lazarus.Journal.{event_payload}
use lazarus.Mutations.Change.{
  maintenance_event_type, maintenance_change_allowed, record_maintenance_change,
  transition_maintenance_tx, checked_maintenance_change,
}

-- what an accepted change of a maintenance has passed
pub record Accepted (now : Time) (id : String) (change : StateChange)
    (precondition : VersionPrecondition) (audit : AuditContext) (db db' : Db)
    (res : MaintenanceAggregate) : Type 0 where
  pub payload : Raw
  pub m : Maintenance
  pub reopened : String
  pub type : String
  pub valid : valid_id id ≡ true
  pub made : event_payload change.detail (trim_space change.justification) ≡ ok payload
  pub found : find_maintenance id db ≡ some m
  pub matched : require precondition m.version "maintenance" id m.state change.state ≡ ok tt
  pub typed : maintenance_event_type m change audit db ≡ ok reopened
  pub allowed : maintenance_change_allowed m change reopened db ≡ ok type
  pub recorded : record_maintenance_change type now m change.state audit payload db ≡ ok (res, db')

pub accepted :
    (now : Time) (id : String) (change : StateChange) (precondition : VersionPrecondition)
    (audit : AuditContext) (db db' : Db) (res : MaintenanceAggregate)
    → checked_maintenance_change now id change precondition audit db ≡ ok (res, db')
    → Accepted now id change precondition audit db db' res
unfolding checked_maintenance_change transition_maintenance_tx
accepted now id change precondition audit db db' res h = ground arith
