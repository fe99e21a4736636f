-- ===== src/Exclusion/Capturing.antt =====
-- A capture keeps the locks exclusive: the trigger refuses a lock that is taken.
use lazarus.Base.{
  String, ◌≡◌, refl, ap, ◌∙◌, inl, inr, true, some, List, [], ◌∷◌, map, arith, eq_iff, length,
}
use lazarus.Env.{Env}
use lazarus.Errors.{ok}
use lazarus.Errors.Chains.{result_outcome}
use lazarus.Model.{Time, AuditContext, Capture, CaptureResult, Maintenance}
use lazarus.Tables.{Db, find_maintenance, is_open, insert_target, insert_capture}
use lazarus.Tables.Keys.{find-holds_id}
use lazarus.Tables.Write.{write-keeps}
use lazarus.Journal.Written.{append_event-IsAppended}
use lazarus.Mutations.Capture.{
  capture_maintenance, checked_capture, insert_targets, captured_target, captured_event,
  new_capture, record_capture,
}
use lazarus.Journal.{audit_values}
use lazarus.Mutations.Capture.Accepted.{
  with_capture, with_targets, capture_rows, record_capture-append, insert_targets-append,
  accepted as capture_accepted,
}
use lazarus.Mutations.Capture.Parse.{CaptureTarget}
use lazarus.Exclusion.{activity, Exclusive, insert_target-Exclusive}
use lazarus.Exclusion.Operations.{set-Exclusive, row-Exclusive}

insert_targets-Exclusive :
    (id : String) (stamp : Time) (inputs : List CaptureTarget) (db db' : Db)
    → insert_targets id stamp inputs db ≡ ok db'
    → Exclusive db
    → Exclusive db'
unfolding insert_targets
insert_targets-Exclusive id stamp [] db db' h old =
    let same : db ≡ db' = ground (arith, h) in rw (← same) old
insert_targets-Exclusive id stamp (input ∷ rest) db db' h old =
    elim (result_outcome (insert_target (captured_target id stamp input) db)) [
      | inl (inserted, done) ↦
          insert_targets-Exclusive id stamp rest inserted db' (ground (arith, done, h))
            (insert_target-Exclusive (captured_target id stamp input) db inserted done old)
      | inr (e, failed) ↦ ground (arith, failed, h)
    ]

Exclusive-along : {a b : Db} → a ≡ b → Exclusive a → Exclusive b
Exclusive-along same old = rw (← same) old

-- the rows of a capture, with its targets in
captured-Exclusive :
    (now : Time) (m : Maintenance) (capture : Capture) (inputs : List CaptureTarget)
    (audit : AuditContext) (db db' : Db) (res : CaptureResult)
    → record_capture now m capture inputs audit db ≡ ok (res, db')
    → find_maintenance m.id db ≡ some m
    → is_open m.state ≡ true
    → Exclusive db
    → Exclusive (capture_rows now m capture inputs db)
unfolding record_capture insert_capture find_maintenance activity
captured-Exclusive now m capture inputs audit db db' res h found alive old =
    elim (result_outcome
      (insert_targets m.id capture.captured_at inputs (with_capture capture db))) [
        | inl (filled, done) ↦
            let inserted =
              insert_targets-append m.id capture.captured_at inputs (with_capture capture db) filled
                done in
            set-Exclusive _ (λ x. refl) m
              (with_targets (map (captured_target m.id capture.captured_at) inputs)
                (with_capture capture db))
              (capture_rows now m capture inputs db) refl found alive refl
              (Exclusive-along inserted (
                insert_targets-Exclusive m.id capture.captured_at inputs (with_capture capture db)
                  filled done old))
        | inr (e, failed) ↦ ground (arith, failed, h)
      ]

pub capture_maintenance-Exclusive :
    (env : Env) (stamp now : Time) (id : String) (capture : Capture) (audit : AuditContext)
    (db : Db)
    → Exclusive db
    → Exclusive (capture_maintenance env stamp now id capture audit db).1
unfolding capture_maintenance
capture_maintenance-Exclusive env stamp now id capture audit db old =
    write-keeps Exclusive db (checked_capture env stamp now id capture audit) old λ res db' done.
      elim (capture_accepted env stamp now id capture audit db db' res done) [
        | inl same ↦ rw same old
        | inr a ↦
            rw
              ((append_event-IsAppended _ _ _
                (record_capture-append now a.m _ a.targets audit db db' res a.recorded).0).written)
              (row-Exclusive
                (captured_event now a.m (new_capture env stamp id capture a.payload)
                  (length a.targets) (audit_values audit))
                (capture_rows now a.m (new_capture env stamp id capture a.payload) a.targets db)
                (captured-Exclusive now a.m _ a.targets audit db db' res a.recorded
                  (ap (λ i. find_maintenance i db) (find-holds_id id db a.found) ∙ a.found)
                  (ap is_open ((eq_iff a.m.state "new").0 a.state)) old))
      ]
