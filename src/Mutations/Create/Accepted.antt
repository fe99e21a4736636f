-- ===== src/Mutations/Create/Accepted.antt =====
-- What an accepted creation has passed.
use lazarus.Base.{◌≡◌, true, false, ◌==◌, eq_iff, [], ◌∷◌, ◌++◌, any, arith, if◌then◌else◌}
use lazarus.Env.{Env}
use lazarus.Errors.{ok}
use lazarus.Text.{valid_id}
use lazarus.Model.{Time, AuditContext, Maintenance}
use lazarus.Canonical.{canonical_json_default}
use lazarus.Tables.{Db, insert_maintenance}
use lazarus.Journal.{append_event, audit_values}
use lazarus.Mutations.Create.{created_event, new_maintenance, checked_creation}

-- the row that is inserted
pub record IsNew (now : Time) (given row : Maintenance) : Type 0 where
  pub valid : valid_id row.id ≡ true
  pub state : row.state ≡ "new"
  pub canonical : canonical_json_default given.metadata ≡ ok row.metadata
  pub version : row.version ≡ 1
  pub created_at : row.created_at ≡ now
  pub updated_at : row.updated_at ≡ now

pub new_maintenance-IsNew :
    (now : Time) (given row : Maintenance)
    → new_maintenance now given ≡ ok row
    → IsNew now given row
unfolding new_maintenance
new_maintenance-IsNew now given row h =
    ground (arith, eq_iff (if given.state == "" then "new" else given.state) "new")

abbrev pub with_maintenance : Maintenance → Db → Db
with_maintenance row db = record db { maintenances = db.maintenances ++ row ∷ [] }

pub record Accepted (env : Env) (now : Time) (given : Maintenance) (audit : AuditContext)
    (db db' : Db) (row : Maintenance) : Type 0 where
  pub made : new_maintenance now given ≡ ok row
  pub free : any (λ x. x.id == row.id) db.maintenances ≡ false
  pub appended :
      append_event (created_event env now row (audit_values audit)) (with_maintenance row db)
      ≡ ok db'

pub accepted :
    (env : Env) (now : Time) (given : Maintenance) (audit : AuditContext) (db db' : Db)
    (res : Maintenance)
    → checked_creation env now given audit db ≡ ok (res, db')
    → Accepted env now given audit db db' res
unfolding checked_creation insert_maintenance
accepted env now given audit db db' res h = ground arith
