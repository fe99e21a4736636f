-- ===== src/Agreement/MaintenanceChange/Apply.antt =====
-- The replay's checks pass, for each of the three event types of a changed maintenance.
use lazarus.Base.{
  ℕ, ◌<◌, String, ◌≡◌, refl, ap, ◌∙◌, ◌⊎◌, inl, inr, true, false, ◌==◌, arith, eqb_refl, eq_refl,
  eq_iff, Bool-cases, if◌then◌else◌,
}
use lazarus.Json.{Raw}
use lazarus.Env.{Env}
use lazarus.Errors.{ok}
use lazarus.Model.{
  Time, next_version, is_positive-pos, is_zero, AuditContext, StateChange, Maintenance,
}
use lazarus.Lifecycle.Graph.{maintenance_entries}
use lazarus.Text.{trim_space}
use lazarus.Journal.{or_system, stored_event, event_payload}
use lazarus.Journal.Written.{or_system-ne_empty}
use lazarus.Tables.{Db}
use lazarus.Payloads.Written.{event_payload-valid, event_payload-transition}
use lazarus.Mutations.Change.{maintenance_event_type, maintenance_change_allowed}
use lazarus.Replay.{apply}
use lazarus.Replay.Shape.{validate_event_shape}
use lazarus.Agreement.{Agrees}
use lazarus.Agreement.MaintenanceChange.Step.{
  written_event, changed, edge, Reopens, reopens, Proceeds, proceeds, stops, completes, has_entries,
}

completed_only :
    (to : String)
    → (to == "completed") ≡ true
    → ((to == "stopped") ≡ false) × ((to == "cancelled") ≡ false) × ((to == "captured") ≡ false)
completed_only to h = rw ((eq_iff to "completed").0 h) (refl, refl, refl)

module _ (env : Env) (db : Db) (m : Maintenance) (old : Agrees env db m) (key : ℕ)
    (reopened type : String) (now : Time) (change : StateChange) (audit : AuditContext)
    (payload : Raw) (typed : maintenance_event_type m change audit db ≡ ok reopened)
    (allowed : maintenance_change_allowed m change reopened db ≡ ok type)
    (named : (m.id == "") ≡ false)
    (made : event_payload change.detail (trim_space change.justification) ≡ ok payload) where
  literal_completed :
      Proceeds env db m old key reopened type now change audit payload typed allowed named made
      → (change.state == "completed") ≡ true
      → type ≡ "maintenance.completed"
  literal_completed x c =
      x.literal ∙ ap (λ b. if b then "maintenance.completed" else "maintenance.transitioned") c

  literal_transitioned :
      Proceeds env db m old key reopened type now change audit payload typed allowed named made
      → (change.state == "completed") ≡ false
      → type ≡ "maintenance.transitioned"
  literal_transitioned x c =
      x.literal ∙ ap (λ b. if b then "maintenance.completed" else "maintenance.transitioned") c

  reopened-apply :
      Reopens env db m old key reopened type now change audit payload typed allowed named made
      → apply env old.saved old.replay
          (written_event key "maintenance.reopened" now m change audit payload)
        ≡ ok (changed old.replay m change)
  unfolding apply stored_event
  reopened-apply x = ground (
    arith,
    x.failed,
    x.admin,
    x.reason,
    x.not_completed,
    x.not_cancelled,
    x.uncaptured,
    x.recaptured,
    stops env db m old key reopened type now change audit payload typed allowed named made,
    old.state,
    old.revision,
    is_positive-pos m.version old.positive,
    old.captured,
    edge env db m old key reopened type now change audit payload typed allowed named made,
    event_payload-valid change.detail (trim_space change.justification) made,
    event_payload-transition change.detail (trim_space change.justification) made,
    eq_refl m.state,
    eqb_refl m.version,
    eqb_refl (next_version m.version),
  )

  completed-apply :
      Proceeds env db m old key reopened type now change audit payload typed allowed named made
      → (change.state == "completed") ≡ true
      → apply env old.saved old.replay
          (written_event key "maintenance.completed" now m change audit payload)
        ≡ ok (changed old.replay m change)
  unfolding apply stored_event
  completed-apply x c = ground (
    arith,
    x.failed,
    completed_only change.state c,
    c,
    completes env db m old key reopened type now change audit payload typed allowed named made c,
    has_entries env db m old key reopened type now change audit payload typed allowed named made c,
    old.state,
    old.revision,
    is_positive-pos m.version old.positive,
    old.captured,
    edge env db m old key reopened type now change audit payload typed allowed named made,
    event_payload-valid change.detail (trim_space change.justification) made,
    event_payload-transition change.detail (trim_space change.justification) made,
    eq_refl m.state,
    eqb_refl m.version,
    eqb_refl (next_version m.version),
  )

  transitioned-apply :
      Proceeds env db m old key reopened type now change audit payload typed allowed named made
      → (change.state == "completed") ≡ false
      → apply env old.saved old.replay
          (written_event key "maintenance.transitioned" now m change audit payload)
        ≡ ok (changed old.replay m change)
  unfolding apply stored_event
  transitioned-apply x c = ground (
    arith,
    x.failed,
    x.uncaptured,
    x.cancels,
    c,
    stops env db m old key reopened type now change audit payload typed allowed named made,
    old.state,
    old.revision,
    is_positive-pos m.version old.positive,
    old.captured,
    edge env db m old key reopened type now change audit payload typed allowed named made,
    event_payload-valid change.detail (trim_space change.justification) made,
    event_payload-transition change.detail (trim_space change.justification) made,
    eq_refl m.state,
    eqb_refl m.version,
    eqb_refl (next_version m.version),
  )

  pub change-apply :
      apply env old.saved old.replay (written_event key type now m change audit payload)
      ≡ ok (changed old.replay m change)
  change-apply = elim (Bool-cases (m.state == "failed")) [
    | inl f ↦
        let x =
          reopens env db m old key reopened type now change audit payload typed allowed named made
            f in
        rw (x.literal) (reopened-apply x)
    | inr f ↦
        let x =
          proceeds env db m old key reopened type now change audit payload typed allowed named made
            f in
        elim (Bool-cases (change.state == "completed")) [
          | inl c ↦ rw (literal_completed x c) (completed-apply x c)
          | inr c ↦ rw (literal_transitioned x c) (transitioned-apply x c)
        ]
  ]

  shaped :
      (type ≡ "maintenance.reopened")
        ⊎ ((type ≡ "maintenance.completed") ⊎ (type ≡ "maintenance.transitioned"))
      → is_zero now ≡ false
      → 0 < key
      → validate_event_shape (written_event key type now m change audit payload) ≡ ok tt
  unfolding validate_event_shape stored_event
  shaped (inl e) dated positive_key = rw e (
      ground (
        arith,
        dated,
        named,
        positive_key,
        eq_refl m.id,
        event_payload-valid change.detail (trim_space change.justification) made,
        or_system-ne_empty (or_system audit.request_id),
        or_system-ne_empty (or_system audit.actor),
        or_system-ne_empty (or_system audit.role),
      ))
  shaped (inr (inl e)) dated positive_key = rw e (
      ground (
        arith,
        dated,
        named,
        positive_key,
        eq_refl m.id,
        event_payload-valid change.detail (trim_space change.justification) made,
        or_system-ne_empty (or_system audit.request_id),
        or_system-ne_empty (or_system audit.actor),
        or_system-ne_empty (or_system audit.role),
      ))
  shaped (inr (inr e)) dated positive_key = rw e (
      ground (
        arith,
        dated,
        named,
        positive_key,
        eq_refl m.id,
        event_payload-valid change.detail (trim_space change.justification) made,
        or_system-ne_empty (or_system audit.request_id),
        or_system-ne_empty (or_system audit.actor),
        or_system-ne_empty (or_system audit.role),
      ))

  pub change-shape :
      is_zero now ≡ false
      → 0 < key
      → validate_event_shape (written_event key type now m change audit payload) ≡ ok tt
  change-shape = elim (Bool-cases (m.state == "failed")) [
    | inl f ↦ shaped (
        inl
          (reopens env db m old key reopened type now change audit payload typed allowed named made
            f).literal)
    | inr f ↦
        let x =
          proceeds env db m old key reopened type now change audit payload typed allowed named made
            f in
        elim (Bool-cases (change.state == "completed")) [
          | inl c ↦ shaped (inr (inl (literal_completed x c)))
          | inr c ↦ shaped (inr (inr (literal_transitioned x c)))
        ]
  ]

  -- no change of a maintenance counts as work on a target
  pub change-physical : (type == "target.transitioned") ≡ false
  change-physical = elim (Bool-cases (m.state == "failed")) [
    | inl f ↦
        rw
          ((reopens env db m old key reopened type now change audit payload typed allowed named made
            f).literal)
          refl
    | inr f ↦
        let x =
          proceeds env db m old key reopened type now change audit payload typed allowed named made
            f in
        elim (Bool-cases (change.state == "completed")) [
          | inl c ↦ rw (literal_completed x c) refl
          | inr c ↦ rw (literal_transitioned x c) refl
        ]
  ]

  -- a maintenance that is new again was never captured
  pub change-fresh : change.state ≡ "new" → old.saved.present ≡ false
  change-fresh e =
      let here : (change.state == "new") ≡ true = (eq_iff change.state "new").1 e in
      let failed =
        (maintenance_entries m.state change.state (
            edge env db m old key reopened type now change audit payload typed allowed named
              made)).1
          here in
      let x =
        reopens env db m old key reopened type now change audit payload typed allowed named made
          failed in
      elim (Bool-cases old.saved.present) [ inl p ↦ absurd (cc (here, x.recaptured p)) | inr p ↦ p ]
