-- ===== src/Guarantees/Logged.antt =====
-- Every call either leaves the tables alone, or appends one event to the journal.
use mathlib.Core.List.{append-nil}
use lazarus.Base.{
  sym, List, [], ◌∷◌, ◌++◌, ◌⊎◌, String, true, false, ◌==◌, Option, none, some, ◌≡◌, refl, inl, inr,
  arith,
}
use lazarus.Env.{Env}
use lazarus.Model.{Capture, Event, Time, StateChange, AuditContext, TargetTransitionResult}
use lazarus.Precondition.{VersionPrecondition}
use lazarus.Text.{valid_id}
use lazarus.Tables.{Db, bump_targets}
use lazarus.Tables.Write.{write-keeps}
use lazarus.Mutations.Create.{create_maintenance, checked_creation}
use lazarus.Mutations.Capture.{capture_maintenance, checked_capture}
use lazarus.Mutations.Change.{transition_maintenance, checked_maintenance_change}
use lazarus.Mutations.Target.{transition_target, checked_target_change}
use lazarus.Mutations.Observe.{add_observation, checked_observation}
use lazarus.Mutations.Target.Guarded.{body}
use lazarus.Agreement.TargetChange.Rows.{record_target_change-append}
use lazarus.Agreement.MaintenanceChange.Rows.{record_maintenance_change-append}
use lazarus.Mutations.Capture.Accepted.{record_capture-append}
use lazarus.Mutations.Create.Accepted.{new_maintenance-IsNew, accepted as create_accepted}
use lazarus.Mutations.Capture.Accepted.{accepted as capture_accepted}
use lazarus.Mutations.Change.Accepted.{accepted as change_accepted}
use lazarus.Mutations.Target.Accepted.{accepted as target_accepted}
use lazarus.Mutations.Observe.Accepted.{accepted as observe_accepted}
use lazarus.Guarantees.Commands.{
  Command, create_call, capture_call, maintenance_call, target_call, observation_call, execute,
}
use lazarus.Errors.{ok}
use lazarus.Journal.{append_event}
use lazarus.Text.Trim.{valid_id-ne_empty}
use lazarus.Tables.Keys.{find-holds_id}
use lazarus.Backups.{
  created_event, downloaded_event, append_only, record_backup_created, record_backup_download,
}
use lazarus.Backups.Appended.{append_only-appended}
use lazarus.Guarantees.Commands.{backup_created_call, backup_download_call}

-- the event that a call about a backup appends
abbrev pub backup_event_of : Env → Command → Option Event
backup_event_of env (backup_created_call m audit) = some (created_event env m audit)
backup_event_of env (backup_download_call now m artifact audit) =
    some (downloaded_event now m artifact audit)
backup_event_of env _ = none

pub record IsLogged (env : Env) (c : Command) (db db' : Db) : Type 0 where
  pub event : Event
  pub rows : Db
  pub same : rows.journal ≡ db.journal
  pub captures : List Capture
  pub captured : rows.captures ≡ db.captures ++ captures
  pub appended : append_event event rows ≡ ok db'
  -- it names a maintenance, or is that of a backup
  pub owner :
      ((event.maintenance_id == "") ≡ false) ⊎ ((backup_event_of env c ≡ some event) × (rows ≡ db))

-- the outcome of a call
IsStep : Env → Command → Db → Db → Type 0
IsStep env c db db' = (db' ≡ db) ⊎ IsLogged env c db db'

checked_target_change-named :
    (now : Time) (mid tid : String) (change : StateChange) (precondition : VersionPrecondition)
    (audit : AuditContext) (db : Db) {res : TargetTransitionResult × Db}
    → checked_target_change now mid tid change precondition audit db ≡ ok res
    → valid_id mid ≡ true
unfolding checked_target_change
checked_target_change-named now mid tid change precondition audit db h = ground (arith, h)

pub execute-IsLogged :
    (env : Env) (c : Command) (db : Db)
    → (execute env c db ≡ db) ⊎ IsLogged env c db (execute env c db)
unfolding execute create_maintenance capture_maintenance transition_maintenance transition_target
    add_observation record_backup_created record_backup_download bump_targets IsStep
execute-IsLogged env (create_call now m audit) db =
    write-keeps (IsStep env (create_call now m audit) db) db (checked_creation env now m audit)
      (inl refl)
      λ row db' done.
        let a = create_accepted env now m audit db db' row done in
        inr (record {
          event = _;
          rows = _;
          same = refl;
          captures = [];
          captured = sym (append-nil db.captures);
          appended = a.appended;
          owner = inl (valid_id-ne_empty row.id (new_maintenance-IsNew now m row a.made).valid);
        })
execute-IsLogged env (capture_call stamp now id capture audit) db =
    write-keeps (IsStep env (capture_call stamp now id capture audit) db) db
      (checked_capture env stamp now id capture audit) (inl refl)
      λ res db' done. elim (capture_accepted env stamp now id capture audit db db' res done) [
        | inl same ↦ inl same
        | inr a ↦ inr (record {
          event = _;
          rows = _;
          same = refl;
          captures = _ ∷ [];
          captured = refl;
          appended = (record_capture-append now a.m _ a.targets audit db db' res a.recorded).0;
          owner = inl (rw (find-holds_id id db a.found) (valid_id-ne_empty id a.valid));
        })
      ]
execute-IsLogged env (maintenance_call now id change precondition audit) db =
    write-keeps (IsStep env (maintenance_call now id change precondition audit) db) db
      (checked_maintenance_change now id change precondition audit) (inl refl)
      λ res db' done.
        let a = change_accepted now id change precondition audit db db' res done in
        inr (record {
          event = _;
          rows = _;
          same = ground arith;
          captures = [];
          captured = ground (arith, append-nil db.captures);
          appended =
              (record_maintenance_change-append a.type now a.m change.state audit a.payload db db'
                res a.recorded).0;
          owner = inl (rw (find-holds_id id db a.found) (valid_id-ne_empty id a.valid));
        })
execute-IsLogged env (target_call now mid id change precondition audit) db =
    write-keeps (IsStep env (target_call now mid id change precondition audit) db) db
      (checked_target_change now mid id change precondition audit) (inl refl)
      λ res db' done.
        let b = body now mid id change precondition audit db res db' done in
        let a = target_accepted now mid id change precondition audit b.0 db db' res b.1 in
        inr (record {
          event = _;
          rows = _;
          same = refl;
          captures = [];
          captured = sym (append-nil db.captures);
          appended =
              (record_target_change-append a.type now a.m a.t change.state audit b.0 db db' res
                a.recorded).0;
          owner = inl (
              rw (find-holds_id mid db a.found) (
                valid_id-ne_empty mid
                  (checked_target_change-named now mid id change precondition audit db done)));
        })
execute-IsLogged env (observation_call now mid id payload precondition audit) db =
    write-keeps (IsStep env (observation_call now mid id payload precondition audit) db) db
      (checked_observation now mid id payload precondition audit) (inl refl)
      λ res db' done.
        elim (observe_accepted now mid id payload precondition audit db db' res done) [
          | inl same ↦ inl same
          | inr a ↦ inr (record {
            event = _;
            rows = _;
            same = refl;
            captures = [];
            captured = sym (append-nil db.captures);
            appended = a.appended;
            owner = inl (valid_id-ne_empty mid a.valid);
          })
        ]
execute-IsLogged env (backup_created_call m audit) db =
    write-keeps (IsStep env (backup_created_call m audit) db) db
      (append_only (created_event env m audit)) (inl refl)
      λ res db' done. inr (record {
        event = _;
        rows = db;
        same = refl;
        captures = [];
        captured = sym (append-nil db.captures);
        appended = append_only-appended _ db db' res done;
        owner = inr (refl, refl);
      })
execute-IsLogged env (backup_download_call now m artifact audit) db =
    write-keeps (IsStep env (backup_download_call now m artifact audit) db) db
      (append_only (downloaded_event now m artifact audit)) (inl refl)
      λ res db' done. inr (record {
        event = _;
        rows = db;
        same = refl;
        captures = [];
        captured = sym (append-nil db.captures);
        appended = append_only-appended _ db db' res done;
        owner = inr (refl, refl);
      })
