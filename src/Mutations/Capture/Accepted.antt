-- ===== src/Mutations/Capture/Accepted.antt =====
-- What a first capture has passed, and the tables that it leaves.
use mathlib.Core.List.{append-nil, append_assoc}
use lazarus.Base.{
  String, ◌≡◌, refl, ◌∙◌, ◌⊎◌, inl, inr, true, ◌==◌, none, some, List, [], ◌∷◌, ◌++◌, map, length,
  update_first, arith,
}
use lazarus.Json.{Raw}
use lazarus.Env.{Env}
use lazarus.Errors.{ok}
use lazarus.Errors.Chains.{result_outcome}
use lazarus.Text.{valid_id}
use lazarus.Canonical.{canonical_json_object}
use lazarus.Model.{
  Time, next_version, is_positive, AuditContext, Capture, CaptureResult, Maintenance, Target,
}
use lazarus.Tables.{
  Db, find_maintenance, find_capture, insert_target, insert_capture, update_maintenance,
}
use lazarus.Journal.{append_event, audit_values}
use lazarus.Mutations.Capture.{
  captured_target, insert_targets, captured_event, record_capture, capture_maintenance_tx,
  new_capture, checked_capture,
}
use lazarus.Mutations.Capture.Parse.{CaptureTarget, parse_capture_targets}

pub record Accepted (env : Env) (stamp now : Time) (id : String) (given : Capture)
    (audit : AuditContext) (db db' : Db) (res : CaptureResult) : Type 0 where
  pub payload : Raw
  pub targets : List CaptureTarget
  pub m : Maintenance
  pub valid : valid_id id ≡ true
  pub canonical : canonical_json_object given.payload ≡ ok payload
  pub parsed : parse_capture_targets env payload ≡ ok targets
  pub found : find_maintenance id db ≡ some m
  pub uncaptured : find_capture id db ≡ none
  pub state : (m.state == "new") ≡ true
  pub recorded :
      record_capture now m (new_capture env stamp id given payload) targets audit db ≡ ok (res, db')

-- A capture is the first of its maintenance, or changes nothing.
pub accepted :
    (env : Env) (stamp now : Time) (id : String) (given : Capture) (audit : AuditContext)
    (db db' : Db) (res : CaptureResult)
    → checked_capture env stamp now id given audit db ≡ ok (res, db')
    → (db' ≡ db) ⊎ Accepted env stamp now id given audit db db' res
unfolding checked_capture capture_maintenance_tx
accepted env stamp now id given audit db db' res h = ground arith

abbrev pub with_targets : List Target → Db → Db
with_targets ts db = record db { targets = db.targets ++ ts }

pub insert_target-append :
    (t : Target) (db db' : Db) → insert_target t db ≡ ok db' → db' ≡ with_targets (t ∷ []) db
unfolding insert_target
insert_target-append t db db' h = ground arith

pub insert_targets-append :
    (id : String) (stamp : Time) (inputs : List CaptureTarget) (db db' : Db)
    → insert_targets id stamp inputs db ≡ ok db'
    → db' ≡ with_targets (map (captured_target id stamp) inputs) db
unfolding insert_targets
insert_targets-append id stamp [] db db' h = rw append-nil (ground (arith, h))
insert_targets-append id stamp (input ∷ rest) db db' h =
    elim (result_outcome (insert_target (captured_target id stamp input) db)) [
      | inl (inserted, done) ↦
          insert_targets-append id stamp rest inserted db' (ground (arith, done, h))
          ∙ rw (insert_target-append (captured_target id stamp input) db inserted done)
              (rw append_assoc refl)
      | inr (e, failed) ↦ ground (arith, failed, h)
    ]

abbrev pub capture_rows : Time → Maintenance → Capture → List CaptureTarget → Db → Db
capture_rows now m capture inputs db = record db {
  maintenances =
      update_first (λ x. x.id == m.id)
        (λ x. record x { state = "captured"; version = next_version m.version; updated_at = now })
        db.maintenances;
  captures = db.captures ++ capture ∷ [];
  targets = db.targets ++ map (captured_target m.id capture.captured_at) inputs;
}

abbrev pub with_capture : Capture → Db → Db
with_capture capture db = record db { captures = db.captures ++ capture ∷ [] }

filled-append :
    (now : Time) (m : Maintenance) (capture : Capture) (inputs : List CaptureTarget)
    (audit : AuditContext) (db db' : Db) (res : CaptureResult)
    → record_capture now m capture inputs audit db ≡ ok (res, db')
    → (filled : Db)
    → insert_targets m.id capture.captured_at inputs (with_capture capture db) ≡ ok filled
    → filled
      ≡ with_targets
          (map (captured_target m.id capture.captured_at) inputs)
          (with_capture capture db)
    → (append_event
          (captured_event now m capture (length inputs) (audit_values audit))
          (capture_rows now m capture inputs db)
        ≡ ok db')
      × (is_positive (next_version m.version) ≡ true)
unfolding record_capture insert_capture update_maintenance
filled-append now m capture inputs audit db db' res h filled done rows = ground arith

pub record_capture-append :
    (now : Time) (m : Maintenance) (capture : Capture) (inputs : List CaptureTarget)
    (audit : AuditContext) (db db' : Db) (res : CaptureResult)
    → record_capture now m capture inputs audit db ≡ ok (res, db')
    → (append_event
          (captured_event now m capture (length inputs) (audit_values audit))
          (capture_rows now m capture inputs db)
        ≡ ok db')
      × (is_positive (next_version m.version) ≡ true)
unfolding record_capture insert_capture
record_capture-append now m capture inputs audit db db' res h =
    elim (result_outcome
      (insert_targets m.id capture.captured_at inputs (with_capture capture db))) [
        | inl (filled, done) ↦ filled-append now m capture inputs audit db db' res h filled done (
            insert_targets-append m.id capture.captured_at inputs (with_capture capture db) filled
              done)
        | inr (e, failed) ↦ ground (arith, failed, h)
      ]
