-- ===== src/Mutations/Target/Accepted.antt =====
-- What an accepted change of a target has passed, and the tables that it leaves.
use lazarus.Base.{String, ◌≡◌, false, some, arith}
use lazarus.Json.{Raw}
use lazarus.Errors.{ok}
use lazarus.Model.{Time, AuditContext, StateChange, Maintenance, Target, TargetTransitionResult}
use lazarus.Lifecycle.{is_maintenance_terminal}
use lazarus.Precondition.{VersionPrecondition, require}
use lazarus.Tables.{Db, find_maintenance, find_target}
use lazarus.Mutations.Target.{
  target_event_type, target_change_allowed, record_target_change, transition_target_tx,
}

module _ (now : Time) (mid tid : String) (change : StateChange) (pre : VersionPrecondition)
    (audit : AuditContext) (payload : Raw) (db db' : Db) (res : TargetTransitionResult) where
  pub record Accepted : Type 0 where
    pub m : Maintenance
    pub t : Target
    pub type : String
    pub found : find_maintenance mid db ≡ some m
    pub target_found : find_target mid tid db ≡ some t
    pub alive : is_maintenance_terminal m.state ≡ false
    pub matched : require pre t.version "target" tid t.state change.state ≡ ok tt
    pub typed : target_event_type t change audit ≡ ok type
    pub allowed : target_change_allowed m t change ≡ ok tt
    pub recorded : record_target_change type now m t change.state audit payload db ≡ ok (res, db')

  pub accepted :
      transition_target_tx now mid tid change pre audit payload db ≡ ok (res, db') → Accepted
  unfolding transition_target_tx
  accepted h = ground arith
