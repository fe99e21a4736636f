-- ===== src/Exclusion/Creation.antt =====
-- A new maintenance keeps the locks exclusive: no target is its own yet.
use lazarus.Base.{
  String, ◌≡◌, refl, sym, ap, ◌∙◌, inl, inr, Bool, true, false, not, Option, none, some, List, [],
  ◌∷◌, ◌++◌, map, arith, ◌==◌, eq_iff, all, any, select, find, find-any-none, find-append_none,
  find-append_some, Option-cases,
}
use lazarus.Env.{Env}
use lazarus.Model.{Time, AuditContext, Maintenance, Target}
use lazarus.Tables.{Db, find_maintenance, targets_of, is_open}
use lazarus.Tables.Write.{write-keeps}
use lazarus.Journal.Written.{append_event-IsAppended}
use lazarus.Mutations.Create.{create_maintenance, checked_creation}
use lazarus.Mutations.Create.Accepted.{with_maintenance, accepted as create_accepted}
use lazarus.Agreement.{Consistent}
use lazarus.Exclusion.{lock_of, activity, Exclusive}
use lazarus.Exclusion.Keys.{Key, weaker}
use lazarus.Exclusion.Operations.{Exclusive-weaker, row-Exclusive}

-- a maintenance without targets holds no lock
unowned-keys :
    (id : String) (ts : List Target)
    → select (λ t. t.maintenance_id == id) ts ≡ []
    → all (λ (k : Key). not (id == k.1)) (map lock_of ts) ≡ true
unowned-keys id [] h = refl
unowned-keys id (t ∷ ts) h =
    ground (arith, h, unowned-keys id ts, eq_iff id t.maintenance_id, eq_iff t.maintenance_id id)

all-implies :
    (p q : Key → Bool) (ks : List Key)
    → ((k : Key) → p k ≡ true → q k ≡ true)
    → all p ks ≡ true
    → all q ks ≡ true
all-implies p q [] step h = refl
all-implies p q (k ∷ ks) step h =
    rw (step k (ground (arith, h))) (all-implies p q ks step (ground (arith, h)))

unowned-targets :
    (env : Env) (db : Db) (id : String)
    → Consistent env db
    → any (λ x. x.id == id) db.maintenances ≡ false
    → select (λ t. t.maintenance_id == id) db.targets ≡ []
unfolding targets_of find_maintenance
unowned-targets env db id consistent free =
    (consistent.unowned id (find-any-none (λ x. x.id == id) db.maintenances free)).untargeted

-- the activity of the others stays
added-activity :
    (row : Maintenance) (db : Db) (id : String)
    → (row.id == id) ≡ false
    → weaker (activity db) (activity (with_maintenance row db)) ("", id) ≡ true
unfolding activity find_maintenance
added-activity row db id apart =
    let same : find (λ x. x.id == id) (db.maintenances ++ row ∷ [])
        ≡ find (λ x. x.id == id) db.maintenances =
      elim (Option-cases (find (λ x. x.id == id) db.maintenances)) [
        | inl gone ↦
            find-append_none (λ x. x.id == id) db.maintenances (row ∷ []) gone
            ∙ unnamed row id apart
            ∙ sym gone
        | inr (m, there) ↦
            find-append_some (λ x. x.id == id) db.maintenances (row ∷ []) there ∙ sym there
      ] in
    let active : activity (with_maintenance row db) id ≡ activity db id =
      ap
        (λ (o : Option Maintenance). elim o as (λ _. Bool) [
          | none ↦ false
          | some x ↦ is_open x.state
        ])
        same in
    ground (arith, active)
  where
    unnamed :
        (row : Maintenance) (id : String)
        → (row.id == id) ≡ false
        → find (λ x. x.id == id) (row ∷ []) ≡ none
    unnamed row id h = rw h refl

pub create_maintenance-Exclusive :
    (env : Env) (now : Time) (m : Maintenance) (audit : AuditContext) (db : Db)
    → Consistent env db
    → Exclusive db
    → Exclusive (create_maintenance env now m audit db).1
unfolding create_maintenance
create_maintenance-Exclusive env now m audit db consistent old =
    write-keeps Exclusive db (checked_creation env now m audit) old λ row db' done.
      let a = create_accepted env now m audit db db' row done in
      rw ((append_event-IsAppended _ _ _ a.appended).written)
        (row-Exclusive _ (with_maintenance row db) (created row a.free))
  where
    created :
        (row : Maintenance)
        → any (λ x. x.id == row.id) db.maintenances ≡ false
        → Exclusive (with_maintenance row db)
    created row free =
        Exclusive-weaker db (with_maintenance row db) refl
          (all-implies (λ (k : Key). not (row.id == k.1)) _ (map lock_of db.targets)
            (λ k apart. added-activity row db k.1 (ground (arith, apart)))
            (unowned-keys row.id db.targets (unowned-targets env db row.id consistent free)))
          old
