-- ===== src/Tables.antt =====
-- The tables of internal/store/schema.sql and the statements that the store runs on them. Each
-- write applies the table's CHECK constraints, foreign keys, unique indexes and triggers; rows are
-- kept in the order of insertion. A statement by primary key touches the one row of that key.
pub mod Write
pub mod Keys
use Prim.Native.Nat.{Ordering}
use Prim.Native.String.{compare}
use lazarus.Base.{
  ℕ, zero, suc, ◌+◌, String, Bool, true, false, not, ◌&&◌, ◌||◌, ◌==◌, ltb, leb, eqb, if◌then◌else◌,
  Option, none, some, List, [], ◌∷◌, ◌++◌, length, all, any, select, find, update, update_first,
  is_some,
}
use lazarus.Text.{sql_length}
use lazarus.Json.{is_valid, Raw}
use lazarus.Errors.{Result, ok, err, db_error, unique_violation, guard, refuse, ◌>>=◌, ◌>>◌}
use lazarus.Model.{Time, Moment, int64_limit, is_positive, Capture, Maintenance, Target}

-- A row of journal_events; `none` is NULL, and a text of RFC 3339 is what it names.
pub record JournalRow : Type 0 where
  pub journal_id : ℕ
  pub event_type : String
  pub occurred_at : Moment
  pub request_id : String
  pub actor : String
  pub role : String
  pub resource_type : String
  pub resource_id : String
  pub maintenance_id : Option String
  pub target_id : Option String
  pub from_state : Option String
  pub to_state : Option String
  pub from_version : Option ℕ
  pub to_version : Option ℕ
  pub aggregate_version : Option ℕ
  pub payload : Raw

pub record Db : Type 0 where
  pub maintenances : List Maintenance
  pub captures : List Capture
  pub targets : List Target
  pub journal : List JournalRow

-- SELECT … FROM maintenance WHERE id=?
unfoldable pub find_maintenance : String → Db → Option Maintenance
find_maintenance id db = find (λ m. m.id == id) db.maintenances

unfoldable pub find_capture : String → Db → Option Capture
find_capture id db = find (λ c. c.maintenance_id == id) db.captures

-- SELECT count(*) FROM maintenance_captures WHERE maintenance_id=?
unfoldable pub count_captures : String → Db → ℕ
count_captures id db = length (select (λ c. c.maintenance_id == id) db.captures)

abbrev pub is_target : String → String → Target → Bool
is_target maintenance_id id t = t.maintenance_id == maintenance_id && t.id == id

unfoldable pub find_target : String → String → Db → Option Target
find_target maintenance_id id db = find (is_target maintenance_id id) db.targets

-- SELECT … FROM targets WHERE maintenance_id=?, in the order of insertion
unfoldable pub targets_of : String → Db → List Target
targets_of id db = select (λ t. t.maintenance_id == id) db.targets

unfoldable pub insert_sorted : Target → List Target → List Target
insert_sorted t [] = t ∷ []
insert_sorted t (u ∷ us) =
    let further = insert_sorted t us in
    elim (compare t.id u.id) [ Ordering.gt ↦ u ∷ further | _ ↦ t ∷ u ∷ us ]

-- ORDER BY id
unfoldable pub sort_by_id : List Target → List Target
unfolding insert_sorted
sort_by_id [] = []
sort_by_id (t ∷ ts) = insert_sorted t (sort_by_id ts)

-- A version past int64 is stored as a REAL, which does not scan into an int64.
unfoldable pub list_targets : String → Db → Result (List Target)
unfolding sort_by_id targets_of
list_targets id db =
    if all (λ t. ltb t.version int64_limit) (targets_of id db)
    then ok (sort_by_id (targets_of id db))
    else err db_error

unfoldable pub insert_maintenance : Maintenance → Db → Result Db
insert_maintenance m db = do
  guard (is_positive m.version) db_error
  guard (leb 1 (sql_length m.id) && leb (sql_length m.id) 200) db_error
  guard (is_valid m.metadata) db_error
  refuse (any (λ x. x.id == m.id) db.maintenances) unique_violation
  ok (record db { maintenances = db.maintenances ++ m ∷ [] })

unfoldable pub insert_capture : Capture → Db → Result Db
unfolding find_maintenance
insert_capture c db = do
  guard (is_valid c.payload) db_error
  refuse (any (λ x. x.maintenance_id == c.maintenance_id) db.captures) db_error
  guard (is_some (find_maintenance c.maintenance_id db)) db_error
  ok (record db { captures = db.captures ++ c ∷ [] })

-- maintenance.state NOT IN ('completed','cancelled')
abbrev pub is_open : String → Bool
is_open state = not (state == "completed" || state == "cancelled")

-- the state of the maintenance that a target belongs to keeps its lock
unfoldable pub holds_lock : Db → String → Target → Bool
unfolding find_maintenance
holds_lock db lock_key t =
    t.lock_key == lock_key
    && elim (find_maintenance t.maintenance_id db) [ none ↦ false | some m ↦ is_open m.state ]

-- SELECT t.maintenance_id FROM targets t JOIN maintenance m … WHERE t.lock_key=? … LIMIT 1
unfoldable pub lock_holder : String → Db → Option Target
unfolding holds_lock
lock_holder lock_key db = find (holds_lock db lock_key) db.targets

-- The trigger targets_lock_exclusive looks at the targets of other maintenances.
unfoldable pub insert_target : Target → Db → Result Db
unfolding holds_lock find_maintenance
insert_target t db = do
  refuse
      (any (λ x. not (x.maintenance_id == t.maintenance_id) && holds_lock db t.lock_key x)
        db.targets)
      db_error
  guard (is_positive t.version) db_error
  guard (leb 1 (sql_length t.id) && leb (sql_length t.id) 200) db_error
  guard (leb 1 (sql_length t.lock_key) && leb (sql_length t.lock_key) 512) db_error
  guard (is_valid t.metadata) db_error
  refuse (any (is_target t.maintenance_id t.id) db.targets) db_error
  guard (is_some (find_maintenance t.maintenance_id db)) db_error
  ok (record db { targets = db.targets ++ t ∷ [] })

-- UPDATE maintenance SET state=?,version=?,updated_at=? WHERE id=? AND version=?
-- with the number of rows affected
unfoldable pub update_maintenance : String → ℕ → String → ℕ → Time → Db → Result (ℕ × Db)
unfolding find_maintenance
update_maintenance id expected state version now db = elim (find_maintenance id db) [
  | none ↦ ok (0, db)
  | some m ↦
      if eqb m.version expected
      then (do
        guard (is_positive version) db_error
        ok (
          1,
          record db {
            maintenances =
                update_first (λ x. x.id == id)
                  (λ x. record x { state = state; version = version; updated_at = now })
                  db.maintenances;
          },
        ))
      else ok (0, db)
]

-- UPDATE targets SET state=?,version=?,updated_at=? WHERE maintenance_id=? AND id=? AND version=?
unfoldable pub update_target : String → String → ℕ → String → ℕ → Time → Db → Result (ℕ × Db)
unfolding find_target
update_target maintenance_id id expected state version now db =
    elim (find_target maintenance_id id db) [
      | none ↦ ok (0, db)
      | some t ↦
          if eqb t.version expected
          then (do
            guard (is_positive version) db_error
            ok (
              1,
              record db {
                targets =
                    update_first (is_target maintenance_id id)
                      (λ x. record x { state = state; version = version; updated_at = now })
                      db.targets;
              },
            ))
          else ok (0, db)
    ]

-- UPDATE targets SET version=version+1,updated_at=? WHERE maintenance_id=?; SQL's `+` does not wrap
unfoldable pub bump_targets : String → Time → Db → Db
bump_targets id now db = record db {
  targets =
      update (λ t. t.maintenance_id == id)
        (λ t. record t { version = t.version + 1; updated_at = now }) db.targets;
}

abbrev same_text : Option String → Option String → Bool
same_text (some a) (some b) = a == b
same_text _ _ = false

abbrev same_number : Option ℕ → Option ℕ → Bool
same_number (some a) (some b) = eqb a b
same_number _ _ = false

-- CHECK on the four columns of a change of state
abbrev change_columns : Option String → Option String → Option ℕ → Option ℕ → Bool
change_columns none none none none = true
change_columns (some _) (some _) (some v) (some w) = is_positive v && eqb w (v + 1)
change_columns _ _ _ _ = false

-- the two foreign keys of journal_events, and `target_id IS NULL OR maintenance_id IS NOT NULL`
references : Option String → Option String → Db → Bool
unfolding find_maintenance find_target
references none none db = true
references none (some _) db = false
references (some id) none db = is_some (find_maintenance id db)
references (some id) (some target) db =
    is_some (find_maintenance id db) && is_some (find_target id target db)

-- idx_events_aggregate_version
abbrev same_aggregate : JournalRow → JournalRow → Bool
same_aggregate a b =
    same_text a.maintenance_id b.maintenance_id
    && same_number a.aggregate_version b.aggregate_version

-- idx_events_observation_request
abbrev same_observation : JournalRow → JournalRow → Bool
same_observation a b =
    a.event_type == "target.observed"
    && b.event_type == "target.observed"
    && same_text a.maintenance_id b.maintenance_id
    && same_text a.target_id b.target_id
    && a.request_id == b.request_id

-- INSERT INTO journal_events: the key is one past the last, since no row is ever deleted
unfoldable pub insert_event : JournalRow → Db → Result Db
unfolding references
insert_event row db = do
  guard (is_valid row.payload) db_error
  guard (change_columns row.from_state row.to_state row.from_version row.to_version) db_error
  guard (references row.maintenance_id row.target_id db) db_error
  refuse (any (same_aggregate row) db.journal) db_error
  refuse (any (same_observation row) db.journal) db_error
  ok (record db { journal = db.journal ++ record row { journal_id = length db.journal + 1 } ∷ [] })

-- `Store.write`: the transaction commits its result, or rolls back to the tables it began with.
unfoldable pub write {ℓ} : {A : Type ℓ} → Db → (Db → Result (A × Db)) → Result A × Db
write db fn = elim (fn db) [ ok (a, db') ↦ (ok a, db') | err e ↦ (err e, db) ]
