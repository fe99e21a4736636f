-- ===== src/Tables/Keys.antt =====
-- A row that is found under a key has that key.
use lazarus.Base.{String, ◌≡◌, ◌==◌, some, arith, eq_iff, find-holds}
use lazarus.Model.{Maintenance, Target}
use lazarus.Tables.{Db, is_target, find_maintenance, find_target}

pub find-holds_id :
    (id : String) (db : Db) {m : Maintenance} → find_maintenance id db ≡ some m → m.id ≡ id
unfolding find_maintenance
find-holds_id id db {m} h = (eq_iff m.id id).0 (find-holds (λ x. x.id == id) db.maintenances h)

pub find-holds_target :
    (mid id : String) (db : Db) {t : Target} → find_target mid id db ≡ some t → t.id ≡ id
unfolding find_target
find-holds_target mid id db {t} h =
    (eq_iff t.id id).0 (ground (arith, find-holds (is_target mid id) db.targets h))
