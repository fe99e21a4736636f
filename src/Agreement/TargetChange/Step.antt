-- ===== src/Agreement/TargetChange/Step.antt =====
-- The replay accepts the event of an accepted change of a target, and makes the change.
use lazarus.Base.{
  ℕ, ◌<◌, String, ◌≡◌, ◌⊎◌, inl, inr, Bool, true, false, ◌||◌, ◌==◌, some, arith, find,
  update_first, eq_iff, eqb_refl, eq_refl, if◌then◌else◌, Bool-cases,
}
use lazarus.Json.{Raw}
use lazarus.Env.{Env}
use lazarus.Errors.{ok}
use lazarus.Model.{
  Time, next_version, is_zero, AuditContext, StateChange, Maintenance, Target, Event,
}
use lazarus.Lifecycle.{is_maintenance_terminal}
use lazarus.Journal.{or_system, stored_event, event_payload, audit_values}
use lazarus.Journal.Written.{or_system-ne_empty}
use lazarus.Text.{trim_space}
use lazarus.Payloads.{valid_event_justification}
use lazarus.Payloads.Written.{
  event_payload-valid, event_payload-transition, event_payload-justification,
}
use lazarus.Mutations.Target.{is_admin, target_event_type, target_change_allowed, target_event}
use lazarus.Replay.{ReplayMaintenance, SavedCapture, has_name, set_entry, apply}
use lazarus.Replay.Shape.{validate_event_shape}
use lazarus.Agreement.{entry_of}

abbrev pub written_event :
    ℕ → String → Time → Maintenance → Target → StateChange → AuditContext → Raw → Event
written_event key type now m t change audit payload =
    record (stored_event (target_event type now m t change.state (audit_values audit) payload)) {
      id = key;
    }

-- the state of the replay after the event
abbrev pub changed : ReplayMaintenance → Maintenance → Target → StateChange → ReplayMaintenance
changed r m t change = record r {
  revision = next_version m.version;
  targets =
      update_first (has_name t.id) (set_entry change.state (next_version t.version)) r.targets;
  physical_transition = if change.state == "skipped" then r.physical_transition else true;
}

-- the role of an administrator is stored as it is
pub admin_stored :
    (role : String) → is_admin role ≡ true → is_admin (or_system (or_system role)) ≡ true
admin_stored role h = rw ((eq_iff role "admin").0 h)

module _ (env : Env) (saved : SavedCapture) (r : ReplayMaintenance) (key : ℕ) (type : String)
    (now : Time) (m : Maintenance) (t : Target) (change : StateChange) (audit : AuditContext)
    (payload : Raw) (state : r.state ≡ m.state) (revision : r.revision ≡ m.version)
    (positive : 0 < m.version) (entry : find (has_name t.id) r.targets ≡ some (entry_of t))
    (alive : is_maintenance_terminal m.state ≡ false) (named : (t.id == "") ≡ false)
    (typed : target_event_type t change audit ≡ ok type)
    (allowed : target_change_allowed m t change ≡ ok tt)
    (made : event_payload change.detail (trim_space change.justification) ≡ ok payload) where
  skipped_type :
      (change.state == "skipped") ≡ true
      → (type ≡ "target.skipped")
        × (is_admin (or_system (or_system audit.role)) ≡ true)
        × (valid_event_justification payload ≡ ok tt)
  unfolding target_event_type
  skipped_type s = ground (
    arith,
    typed,
    s,
    event_payload-justification change.detail change.justification made,
    admin_stored audit.role,
  )

  ordinary_type :
      (change.state == "skipped") ≡ false
      → (type ≡ "target.transitioned")
        × ((t.original_state == "degraded") ≡ false)
        × ((t.original_state == "unknown") ≡ false)
  unfolding target_event_type
  ordinary_type s = ground (arith, typed, s)

  skip-apply :
      (change.state == "skipped") ≡ true
      → apply env saved r (written_event key "target.skipped" now m t change audit payload)
        ≡ ok (changed r m t change)
  unfolding apply stored_event target_change_allowed
  skip-apply s = ground (
    arith,
    skipped_type s,
    allowed,
    state,
    revision,
    positive,
    entry,
    alive,
    named,
    s,
    event_payload-valid change.detail (trim_space change.justification) made,
    event_payload-transition change.detail (trim_space change.justification) made,
    eq_refl m.state,
    eq_refl t.state,
    eqb_refl t.version,
    eqb_refl (next_version t.version),
    eqb_refl (next_version m.version),
  )

  ordinary-apply :
      (change.state == "skipped") ≡ false
      → apply env saved r (written_event key "target.transitioned" now m t change audit payload)
        ≡ ok (changed r m t change)
  unfolding apply stored_event target_change_allowed
  ordinary-apply s = ground (
    arith,
    ordinary_type s,
    allowed,
    state,
    revision,
    positive,
    entry,
    alive,
    named,
    s,
    event_payload-valid change.detail (trim_space change.justification) made,
    event_payload-transition change.detail (trim_space change.justification) made,
    eq_refl m.state,
    eq_refl t.state,
    eqb_refl t.version,
    eqb_refl (next_version t.version),
    eqb_refl (next_version m.version),
  )

  pub target-apply :
      apply env saved r (written_event key type now m t change audit payload)
      ≡ ok (changed r m t change)
  target-apply = elim (Bool-cases (change.state == "skipped")) [
    | inl s ↦ rw ((skipped_type s).0) (skip-apply s)
    | inr s ↦ rw ((ordinary_type s).0) (ordinary-apply s)
  ]

  shaped :
      (dated : is_zero now ≡ false) (owned : (m.id == "") ≡ false) (positive_key : 0 < key)
      → (type ≡ "target.skipped") ⊎ (type ≡ "target.transitioned")
      → validate_event_shape (written_event key type now m t change audit payload) ≡ ok tt
  unfolding validate_event_shape stored_event
  shaped dated owned positive_key (inl e) = rw e (
      ground (
        arith,
        dated,
        owned,
        named,
        positive_key,
        eq_refl t.id,
        event_payload-valid change.detail (trim_space change.justification) made,
        or_system-ne_empty (or_system audit.request_id),
        or_system-ne_empty (or_system audit.actor),
        or_system-ne_empty (or_system audit.role),
      ))
  shaped dated owned positive_key (inr e) = rw e (
      ground (
        arith,
        dated,
        owned,
        named,
        positive_key,
        eq_refl t.id,
        event_payload-valid change.detail (trim_space change.justification) made,
        or_system-ne_empty (or_system audit.request_id),
        or_system-ne_empty (or_system audit.actor),
        or_system-ne_empty (or_system audit.role),
      ))

  pub target-shape :
      is_zero now ≡ false
      → (m.id == "") ≡ false
      → 0 < key
      → validate_event_shape (written_event key type now m t change audit payload) ≡ ok tt
  target-shape dated owned positive_key = elim (Bool-cases (change.state == "skipped")) [
    | inl s ↦ shaped dated owned positive_key (inl (skipped_type s).0)
    | inr s ↦ shaped dated owned positive_key (inr (ordinary_type s).0)
  ]

  -- the event marks the work on a target as begun, unless it is a skip
  pub target-physical :
      (b : Bool)
      → (if change.state == "skipped" then b else true) ≡ (b || type == "target.transitioned")
  target-physical b = elim (Bool-cases (change.state == "skipped")) [
    | inl s ↦ rw (s, (skipped_type s).0) (ground arith)
    | inr s ↦ rw (s, (ordinary_type s).0) (ground arith)
  ]
