-- ===== src/Agreement/MaintenanceChange/Step.antt =====
-- The replay accepts the event of an accepted change of a maintenance, and makes the change.
use lazarus.Base.{
  ℕ, String, ◌≡◌, ◌↔◌, ◌∙◌, sym, select, refl, inl, inr, true, false, not, ◌&&◌, ◌==◌, eqb, List,
  [], ◌∷◌, map, arith, any, all, length, eq_iff, none_selected, length-map, if◌then◌else◌,
  Bool-cases,
}
use lazarus.Json.{Raw}
use lazarus.Env.{Env}
use lazarus.Errors.{ok}
use lazarus.Model.{Time, next_version, AuditContext, StateChange, Maintenance, Target, Event}
use lazarus.Lifecycle.{valid_maintenance_transition, target_completion_allowed}
use lazarus.Lifecycle.Graph.{maintenance_entries}
use lazarus.Journal.{or_system, stored_event, event_payload, audit_values}
use lazarus.Text.{trim_space}
use lazarus.Tables.{Db, targets_of}
use lazarus.Payloads.{valid_event_justification}
use lazarus.Payloads.Written.{event_payload-justification}
use lazarus.Mutations.Target.{is_admin}
use lazarus.Mutations.Change.{
  maintenance_event_type, maintenance_change_allowed, maintenance_event, exercises, exercised,
  is_unresolved, validate_stopped_barrier,
}
use lazarus.Mutations.Change.Barriers.{
  is_reconciled, validate_completion-all, validate_stopped_barrier-all,
}
use lazarus.Replay.{ReplayMaintenance, bump_entry, is_stopped}
use lazarus.Agreement.{Agrees, entry_of}
use lazarus.Agreement.TargetChange.Step.{admin_stored}

abbrev pub written_event :
    ℕ → String → Time → Maintenance → StateChange → AuditContext → Raw → Event
written_event key type now m change audit payload =
    record (stored_event (maintenance_event type now m change.state (audit_values audit) payload)) {
      id = key;
    }

-- the state of the replay after the event
abbrev pub changed : ReplayMaintenance → Maintenance → StateChange → ReplayMaintenance
changed r m change = record r {
  state = change.state;
  revision = next_version m.version;
  targets = if r.captured then map bump_entry r.targets else r.targets;
}

-- the checks on rows are the checks on the entries of the replay
all-entries_stopped :
    (ts : List Target)
    → all (λ t. not (is_unresolved t)) ts ≡ all (λ e. is_stopped e.1) (map entry_of ts)
all-entries_stopped [] = refl
all-entries_stopped (t ∷ ts) = ground (arith, all-entries_stopped ts)

select-none :
    (ts : List Target)
    → all (λ t. not (is_unresolved t)) ts ≡ true
    → eqb (length (select is_unresolved ts)) 0 ≡ true
select-none [] h = refl
select-none (t ∷ ts) h = ground (arith, h, select-none ts)

-- The barrier of `stopped`, which counts unresolved rows of targets, lets a maintenance pass exactly
-- if the test of the replay holds of the entries that stand for these rows: one that was running or
-- stopped is stopped or skipped, and any other is skipped.
pub validate_stopped_barrier_iff :
    (id : String) (db : Db)
    → (validate_stopped_barrier id db ≡ ok tt)
      ↔ (all (λ e. is_stopped e.1) (map entry_of (targets_of id db)) ≡ true)
unfolding validate_stopped_barrier
validate_stopped_barrier_iff id db = (
  λ h. sym (all-entries_stopped (targets_of id db)) ∙ validate_stopped_barrier-all id db h,
  λ h.
      let none_left : eqb (length (select is_unresolved (targets_of id db))) 0 ≡ true =
        select-none (targets_of id db) (all-entries_stopped (targets_of id db) ∙ h) in
      rw none_left refl,
)

all-entries_reconciled :
    (ts : List Target)
    → all is_reconciled ts
      ≡ all (λ e. target_completion_allowed e.1.original e.1.state) (map entry_of ts)
all-entries_reconciled [] = refl
all-entries_reconciled (t ∷ ts) = ground (arith, all-entries_reconciled ts)

new_unended :
    (to : String)
    → (to == "new") ≡ true
    → ((to == "completed") ≡ false) × ((to == "cancelled") ≡ false)
new_unended to h = rw ((eq_iff to "new").0 h) (refl, refl)

-- no row counted is no row there
unexercised :
    (id : String) (db : Db) → eqb (exercised id db) 0 ≡ true → any (exercises id) db.journal ≡ false
unfolding exercised
unexercised id db h = none_selected (exercises id) db.journal h

module _ (env : Env) (db : Db) (m : Maintenance) (old : Agrees env db m) (key : ℕ)
    (reopened type : String) (now : Time) (change : StateChange) (audit : AuditContext)
    (payload : Raw) (typed : maintenance_event_type m change audit db ≡ ok reopened)
    (allowed : maintenance_change_allowed m change reopened db ≡ ok type)
    (named : (m.id == "") ≡ false)
    (made : event_payload change.detail (trim_space change.justification) ≡ ok payload) where
  pub edge : valid_maintenance_transition m.state change.state ≡ true
  unfolding maintenance_change_allowed
  edge = ground (arith, allowed)

  -- the three kinds of change
  pub record Reopens : Type 0 where
    pub literal : type ≡ "maintenance.reopened"
    pub failed : (m.state == "failed") ≡ true
    pub admin : is_admin (or_system (or_system audit.role)) ≡ true
    pub reason : valid_event_justification payload ≡ ok tt
    pub not_completed : (change.state == "completed") ≡ false
    pub not_cancelled : (change.state == "cancelled") ≡ false
    pub uncaptured : old.saved.present ≡ false → (change.state == "new") ≡ true
    pub recaptured : old.saved.present ≡ true → (change.state == "new") ≡ false

  uncaptured_new :
      (m.state == "failed") ≡ true → old.saved.present ≡ false → (change.state == "new") ≡ true
  unfolding maintenance_event_type
  uncaptured_new f p = ground (arith, typed, f, p, old.counted)

  captured_elsewhere :
      (m.state == "failed") ≡ true
      → old.saved.present ≡ true
      → ((change.state == "new") ≡ false)
        × ((change.state == "completed") ≡ false)
        × ((change.state == "cancelled") ≡ false)
  unfolding maintenance_event_type
  captured_elsewhere f p = ground (arith, typed, f, p, old.counted)

  unended :
      (m.state == "failed") ≡ true
      → ((change.state == "completed") ≡ false) × ((change.state == "cancelled") ≡ false)
  unended f = elim (Bool-cases old.saved.present) [
    | inl p ↦ ((captured_elsewhere f p).1, (captured_elsewhere f p).2)
    | inr p ↦ new_unended change.state (uncaptured_new f p)
  ]

  pub reopens : (m.state == "failed") ≡ true → Reopens
  unfolding maintenance_event_type maintenance_change_allowed
  reopens f = record {
    literal = ground (arith, typed, allowed, f, unended f);
    failed = f;
    admin = admin_stored audit.role (ground (arith, typed, f));
    reason =
        event_payload-justification change.detail change.justification made
          (ground (arith, typed, f));
    not_completed = (unended f).0;
    not_cancelled = (unended f).1;
    uncaptured = uncaptured_new f;
    recaptured = λ p. (captured_elsewhere f p).0;
  }

  pub record Proceeds : Type 0 where
    pub literal : type ≡ (
        if change.state == "completed" then "maintenance.completed" else "maintenance.transitioned")
    pub failed : (m.state == "failed") ≡ false
    pub uncaptured : (change.state == "captured") ≡ false
    pub cancels :
        (change.state == "cancelled") ≡ true
        → (old.saved.present && old.replay.physical_transition) ≡ false

  cancel_clean :
      (m.state == "failed") ≡ false
      → (change.state == "cancelled") ≡ true
      → (old.saved.present && old.replay.physical_transition) ≡ false
  unfolding maintenance_change_allowed
  cancel_clean f c = elim (Bool-cases (m.state == "new")) [
    | inl n ↦ rw (old.fresh ((eq_iff m.state "new").0 n))
    | inr n ↦ rw (old.physical) (
        rw
          (unexercised m.id db
            (ground (arith, allowed, c, n, (maintenance_entries m.state change.state edge).0 c)))
          (ground arith))
  ]

  pub proceeds : (m.state == "failed") ≡ false → Proceeds
  unfolding maintenance_event_type maintenance_change_allowed
  proceeds f = record {
    literal = ground (arith, typed, allowed, f);
    failed = f;
    uncaptured = ground (arith, allowed, f);
    cancels = cancel_clean f;
  }

  pub stops :
      (change.state == "stopped") ≡ true → all (λ e. is_stopped e.1) old.replay.targets ≡ true
  unfolding maintenance_change_allowed
  stops s = rw (old.targets) (
      rw (← all-entries_stopped)
        (validate_stopped_barrier-all m.id db (ground (arith, allowed, s))))

  pub completes :
      (change.state == "completed") ≡ true
      → all (λ e. target_completion_allowed e.1.original e.1.state) old.replay.targets ≡ true
  unfolding maintenance_change_allowed
  completes s = rw (old.targets) (
      rw (← all-entries_reconciled)
        (validate_completion-all m.id db (ground (arith, allowed, s))).1)

  pub has_entries : (change.state == "completed") ≡ true → eqb (length old.replay.targets) 0 ≡ false
  unfolding maintenance_change_allowed
  has_entries s =
      rw (old.targets)
        (rw length-map (validate_completion-all m.id db (ground (arith, allowed, s))).2)
