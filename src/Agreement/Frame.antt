-- ===== src/Agreement/Frame.antt =====
-- What a new row of the journal changes for its maintenance, and for the others.
use mathlib.Core.List.{append-nil}
use lazarus.Base.{
  sym, ap, ◌∙◌, none, inl, inr, find, update_first, find-update_first, find-update_first_self,
  map_option, Bool-cases, ℕ, ◌+◌, String, ◌≡◌, refl, false, ◌||◌, ◌==◌, List, [], ◌∷◌, ◌++◌, arith,
  some, length, any, select, eq_refl, select-append, any-append, map-append, eq_iff, Option,
}
use lazarus.Env.{Env}
use lazarus.Model.{Time, Event, Maintenance}
use lazarus.Tables.{Db, find_maintenance, count_captures, find_capture, targets_of}
use lazarus.Tables.Keys.{find-holds_id}
use lazarus.Journal.{stored_event, scan_event}
use lazarus.Journal.Written.{journal_row, with_row, scan-journal_row}
use lazarus.Mutations.Change.{exercises}
use lazarus.Verify.{events_of, belongs, load_capture_for_verify, created_matches}
use lazarus.Agreement.{Agrees, Unowned, Consistent}

module _ (e : Event) (db : Db) (id : String) where
  belongs_own :
      e.maintenance_id ≡ id
      → (id == "") ≡ false
      → select (belongs id) (journal_row e db ∷ []) ≡ journal_row e db ∷ []
  unfolding stored_event
  belongs_own owner named = ground (arith, eq_refl id)

  belongs_other :
      (e.maintenance_id == id) ≡ false → select (belongs id) (journal_row e db ∷ []) ≡ []
  unfolding stored_event
  belongs_other apart = ground arith

  pub events_of-with_row :
      e.maintenance_id ≡ id
      → (id == "") ≡ false
      → events_of id (with_row e db)
        ≡ events_of id db ++ record (stored_event e) { id = length db.journal + 1 } ∷ []
  unfolding events_of
  events_of-with_row owner named =
      rw (select-append (belongs id) db.journal (journal_row e db ∷ [])) (
        rw (belongs_own owner named) (
          rw (map-append scan_event (select (belongs id) db.journal) (journal_row e db ∷ []))
            (rw scan-journal_row)))

  pub events_of-with_row_other :
      (e.maintenance_id == id) ≡ false → events_of id (with_row e db) ≡ events_of id db
  unfolding events_of
  events_of-with_row_other apart =
      rw (select-append (belongs id) db.journal (journal_row e db ∷ []))
        (rw (belongs_other apart) (rw append-nil))

  pub exercises-with_row_other :
      (e.maintenance_id == id) ≡ false
      → any (exercises id) (with_row e db).journal ≡ any (exercises id) db.journal
  unfolding stored_event
  exercises-with_row_other apart = rw any-append (ground arith)

  pub exercises-with_row :
      e.maintenance_id ≡ id
      → (id == "") ≡ false
      → any (exercises id) (with_row e db).journal
        ≡ (any (exercises id) db.journal || e.type == "target.transitioned")
  unfolding stored_event
  exercises-with_row owner named = rw any-append (ground (arith, eq_refl id))

-- What the tables hold about a maintenance, besides its row, is the same.
pub record Untouched (id : String) (db db' : Db) : Type 0 where
  pub captures : find_capture id db' ≡ find_capture id db
  pub counts : count_captures id db' ≡ count_captures id db
  pub targets : targets_of id db' ≡ targets_of id db
  pub events : events_of id db' ≡ events_of id db
  pub exercised : any (exercises id) db'.journal ≡ any (exercises id) db.journal

-- A maintenance that a change does not reach stays in agreement.
pub Agrees-frame :
    (env : Env) (db db' : Db) (m : Maintenance)
    → Untouched m.id db db'
    → Agrees env db m
    → Agrees env db' m
unfolding load_capture_for_verify
Agrees-frame env db db' m same old = record {
  saved = old.saved;
  replay = old.replay;
  loaded = rw (same.captures, load_capture_for_verify) old.loaded;
  replayed = rw (same.events) old.replayed;
  state = old.state;
  revision = old.revision;
  captured = old.captured;
  counted = rw (same.counts) old.counted;
  targets = rw (same.targets) old.targets;
  physical = rw (same.exercised) old.physical;
  created = old.created;
  inputs = rw (same.targets) old.inputs;
  fit = rw (same.targets) old.fit;
  fresh = old.fresh;
  untargeted = old.untargeted;
  positive = old.positive;
}

pub Unowned-frame :
    (id : String) (db db' : Db) → Untouched id db db' → Unowned id db → Unowned id db'
Unowned-frame id db db' same old = record {
  uncaptured = same.captures ∙ old.uncaptured;
  uncounted = same.counts ∙ old.uncounted;
  untargeted = same.targets ∙ old.untargeted;
  unjournaled = same.events ∙ old.unjournaled;
  unexercised = same.exercised ∙ old.unexercised;
}

abbrev pub set_maintenance : Time → String → ℕ → Maintenance → Maintenance
set_maintenance now state version x = record x {
  state = state;
  version = version;
  updated_at = now;
}

-- setting the row of one maintenance
module _ (f : Maintenance → Maintenance) (keeps : (x : Maintenance) → (f x).id ≡ x.id)
    (mid id : String) (rows : List Maintenance) where
  pub find-set_same :
      mid ≡ id
      → find (λ x. x.id == id) (update_first (λ x. x.id == mid) f rows)
        ≡ map_option f (find (λ x. x.id == id) rows)
  find-set_same same = rw same (find-update_first_self (λ x. x.id == id) f (λ x. rw (keeps x)) rows)

  pub find-set_other :
      (mid == id) ≡ false
      → find (λ x. x.id == id) (update_first (λ x. x.id == mid) f rows)
        ≡ find (λ x. x.id == id) rows
  find-set_other apart =
      find-update_first (λ x. x.id == mid) (λ x. x.id == id) f (λ x. rw (keeps x))
        (λ x e. rw ((eq_iff x.id mid).0 e) apart) rows

pub created_matches-set :
    (c : Option Maintenance) (now : Time) (state : String) (version : ℕ) (m : Maintenance)
    → created_matches c (set_maintenance now state version m) ≡ created_matches c m
unfolding created_matches
created_matches-set none now state version m = refl
created_matches-set (some c) now state version m = refl

some-none : {P : Type 0} {a : Maintenance} → some a ≡ none → P
some-none h = cc

some_inj : {a b : Maintenance} → some a ≡ some b → a ≡ b
some_inj h = cc

-- A change of the row of one maintenance keeps the tables consistent, if that maintenance agrees
-- after it and the change does not reach the others.
pub Consistent-set :
    (env : Env) (db db' : Db) (f : Maintenance → Maintenance) (m : Maintenance)
    → ((x : Maintenance) → (f x).id ≡ x.id)
    → db'.maintenances ≡ update_first (λ x. x.id == m.id) f db.maintenances
    → find_maintenance m.id db ≡ some m
    → Agrees env db' (f m)
    → ((id : String) → (m.id == id) ≡ false → Untouched id db db')
    → Consistent env db
    → Consistent env db'
unfolding find_maintenance
Consistent-set env db db' f m keeps rows found self frame old = record {
  at = λ id x here. elim (Bool-cases (m.id == id)) [
    | inl e ↦
        let same : m.id ≡ id = (eq_iff m.id id).0 e in
        let there : find (λ y. y.id == id) db.maintenances ≡ some m = rw (← same) found in
        rw
          (some_inj (
            sym here
            ∙ ap (find (λ y. y.id == id)) rows
            ∙ find-set_same f keeps m.id id db.maintenances same
            ∙ ap (map_option f) there))
          self
    | inr e ↦
        let there : find (λ y. y.id == id) db.maintenances ≡ some x =
          sym (find-set_other f keeps m.id id db.maintenances e)
          ∙ sym (ap (find (λ y. y.id == id)) rows)
          ∙ here in
        Agrees-frame env db db' x (frame x.id (rw (find-holds_id id db there) e))
          (old.at id x there)
  ];
  unowned = λ id gone. elim (Bool-cases (m.id == id)) [
    | inl e ↦
        let same : m.id ≡ id = (eq_iff m.id id).0 e in
        let there : find (λ y. y.id == id) db.maintenances ≡ some m = rw (← same) found in
        some-none (
          sym (
            ap (find (λ y. y.id == id)) rows
            ∙ find-set_same f keeps m.id id db.maintenances same
            ∙ ap (map_option f) there)
          ∙ gone)
    | inr e ↦
        let there : find (λ y. y.id == id) db.maintenances ≡ none =
          sym (find-set_other f keeps m.id id db.maintenances e)
          ∙ sym (ap (find (λ y. y.id == id)) rows)
          ∙ gone in
        Unowned-frame id db db' (frame id e) (old.unowned id there)
  ];
}

pub Untouched-with_row :
    (e : Event) (db : Db) (id : String)
    → (e.maintenance_id == id) ≡ false
    → Untouched id db (with_row e db)
unfolding find_capture count_captures targets_of
Untouched-with_row e db id apart = record {
  captures = refl;
  counts = refl;
  targets = refl;
  events = events_of-with_row_other e db id apart;
  exercised = exercises-with_row_other e db id apart;
}

-- A new row of the journal keeps the tables consistent, if its maintenance agrees after it.
pub Consistent-with_row :
    (env : Env) (db : Db) (e : Event) (m : Maintenance)
    → e.maintenance_id ≡ m.id
    → find_maintenance m.id db ≡ some m
    → Agrees env (with_row e db) m
    → Consistent env db
    → Consistent env (with_row e db)
unfolding find_maintenance find_capture count_captures targets_of
Consistent-with_row env db e m owner found self old = record {
  at = λ id x here. elim (Bool-cases (m.id == id)) [
    | inl same ↦
        rw
          (some_inj (
            sym here
            ∙ ap (λ i. find (λ y. y.id == i) db.maintenances) (sym ((eq_iff m.id id).0 same))
            ∙ found))
          self
    | inr apart ↦
        let other : (e.maintenance_id == x.id) ≡ false =
          rw (owner, find-holds_id id db here) apart in
        Agrees-frame env db (with_row e db) x (Untouched-with_row e db x.id other)
          (old.at id x here)
  ];
  unowned = λ id gone. elim (Bool-cases (m.id == id)) [
    | inl same ↦ some-none (
        sym
          (ap (λ i. find (λ y. y.id == i) db.maintenances) (sym ((eq_iff m.id id).0 same)) ∙ found)
        ∙ gone)
    | inr apart ↦
        Unowned-frame id db (with_row e db) (Untouched-with_row e db id (rw owner apart))
          (old.unowned id gone)
  ];
}
