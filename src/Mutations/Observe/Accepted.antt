-- ===== src/Mutations/Observe/Accepted.antt =====
-- What a first observation has passed.
use lazarus.Base.{String, ◌≡◌, ◌⊎◌, true, false, some, arith}
use lazarus.Json.{Raw}
use lazarus.Errors.{ok}
use lazarus.Text.{valid_id}
use lazarus.Model.{Time, AuditContext, Maintenance, Target}
use lazarus.Lifecycle.{is_maintenance_terminal}
use lazarus.Canonical.{canonical_json_object}
use lazarus.Precondition.{VersionPrecondition}
use lazarus.Tables.{Db, find_maintenance, find_target}
use lazarus.Journal.{append_event, audit_values}
use lazarus.Mutations.Observe.{
  observed_event, observe_target, checked_observation, add_observation_tx,
}

-- what a first observation has passed
pub record Accepted (now : Time) (mid tid : String) (given : Raw)
    (precondition : VersionPrecondition) (audit : AuditContext) (db db' : Db) : Type 0 where
  pub m : Maintenance
  pub t : Target
  pub payload : Raw
  pub valid : valid_id mid ≡ true
  pub target_valid : valid_id tid ≡ true
  pub canonical : canonical_json_object given ≡ ok payload
  pub found : find_maintenance mid db ≡ some m
  pub target_found : find_target mid tid db ≡ some t
  pub alive : is_maintenance_terminal m.state ≡ false
  pub appended : append_event (observed_event now mid tid (audit_values audit) payload) db ≡ ok db'

pub accepted :
    (now : Time) (mid tid : String) (given : Raw) (precondition : VersionPrecondition)
    (audit : AuditContext) (db db' : Db) (res : Unit {0})
    → checked_observation now mid tid given precondition audit db ≡ ok (res, db')
    → (db' ≡ db) ⊎ Accepted now mid tid given precondition audit db db'
unfolding checked_observation add_observation_tx observe_target
accepted now mid tid given precondition audit db db' res h = ground arith
