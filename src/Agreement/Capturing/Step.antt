-- ===== src/Agreement/Capturing/Step.antt =====
-- The replay accepts the event of a first capture, and takes the targets from the capture.
use lazarus.Base.{
  ℕ, ◌<◌, ◌≡◌, refl, inl, inr, true, false, ◌==◌, eqb_refl, eq_refl, List, [], ◌∷◌, map, length,
  arith,
}
use lazarus.Json.{Raw, obj, str, num, field, end, is_valid, is_empty, print}
use lazarus.Json.Equality.{raw_eq_refl}
use lazarus.Env.{Env}
use lazarus.Errors.{ok}
use lazarus.Errors.Chains.{result_outcome}
use lazarus.Text.Trim.{matches_name_refl}
use lazarus.Model.{Time, next_version, is_zero, AuditContext, Capture, Maintenance, Event}
use lazarus.Canonical.{canonical_json_object}
use lazarus.Canonical.Idempotent.{canonical_json_object-canonical}
use lazarus.Journal.{or_system, stored_event, audit_values}
use lazarus.Journal.Written.{or_system-ne_empty}
use lazarus.Payloads.Written.{print-is_empty}
use lazarus.Mutations.Capture.{captured_event, capture_detail}
use lazarus.Mutations.Capture.Parse.{CaptureTarget, parse_capture_targets}
use lazarus.Replay.{ReplayMaintenance, SavedCapture, target_entry, apply, detail_matches}
use lazarus.Replay.Shape.{validate_event_shape}
use lazarus.Replay.Steps.{no_capture-apply}
use lazarus.Verify.{check_capture, replay_events, no_capture}

abbrev pub written_event : ℕ → Time → Maintenance → Capture → ℕ → AuditContext → Event
written_event key now m capture count audit =
    record (stored_event (captured_event now m capture count (audit_values audit))) { id = key }

abbrev pub saved_capture : Capture → List CaptureTarget → SavedCapture
saved_capture capture inputs = record { present = true; hash = capture.sha256; inputs = inputs }

abbrev pub captured : ReplayMaintenance → Maintenance → List CaptureTarget → ReplayMaintenance
captured r m inputs = record r {
  state = "captured";
  revision = next_version m.version;
  captured = true;
  targets = map target_entry inputs;
}

-- A replay that met no capture is the same with one.
pub no_capture-replay_events :
    (env : Env) (saved : SavedCapture) (r : ReplayMaintenance) (es : List Event)
    {r' : ReplayMaintenance}
    → replay_events env no_capture r es ≡ ok r'
    → replay_events env saved r es ≡ ok r'
unfolding replay_events
no_capture-replay_events env saved r [] h = h
no_capture-replay_events env saved r (e ∷ es) {r'} h =
    elim (result_outcome (apply env no_capture r e)) [
      | inl (next, step) ↦ ground (
        arith,
        step,
        h,
        no_capture-apply env saved r e step,
        no_capture-replay_events env saved next es {r' = r'},
      )
      | inr (_, stop) ↦ ground (arith, stop, h)
    ]

pub check_capture-saved :
    (env : Env) (given : Raw) (capture : Capture) (inputs : List CaptureTarget)
    → canonical_json_object given ≡ ok capture.payload
    → capture.sha256 ≡ env.sha256_hex capture.payload
    → parse_capture_targets env capture.payload ≡ ok inputs
    → check_capture env capture ≡ ok (saved_capture capture inputs)
unfolding check_capture
check_capture-saved env given capture inputs canonical hash parsed = ground (
  arith,
  canonical_json_object-canonical given canonical,
  raw_eq_refl capture.payload,
  hash,
  matches_name_refl capture.sha256,
  parsed,
)

detail-valid :
    (capture : Capture) (count : ℕ)
    → (is_valid (capture_detail capture count) ≡ true)
      × (is_empty (capture_detail capture count) ≡ false)
unfolding capture_detail print
detail-valid capture count = (
  refl,
  print-is_empty (obj (field "sha256" (str capture.sha256) (field "targets" (num count) end))),
)

detail-matches :
    (capture : Capture) (inputs : List CaptureTarget)
    → detail_matches (capture_detail capture (length inputs)) (saved_capture capture inputs) ≡ ok tt
unfolding detail_matches capture_detail print
detail-matches capture inputs = ground (arith, eq_refl capture.sha256, eqb_refl (length inputs))

module _ (env : Env) (r : ReplayMaintenance) (key : ℕ) (now : Time) (m : Maintenance)
    (capture : Capture) (inputs : List CaptureTarget) (audit : AuditContext)
    (state : r.state ≡ "new") (revision : r.revision ≡ m.version)
    (uncaptured : r.captured ≡ false) where
  pub captured-apply :
      apply env
        (saved_capture capture inputs)
        r
        (written_event key now m capture (length inputs) audit)
      ≡ ok (captured r m inputs)
  unfolding apply stored_event
  captured-apply =
      let begun : ("new" == r.state) ≡ true = rw state refl in
      ground (
        arith,
        detail-valid capture (length inputs),
        detail-matches capture inputs,
        begun,
        revision,
        uncaptured,
        eqb_refl m.version,
        eqb_refl (next_version m.version),
      )

  pub captured-shape :
      is_zero now ≡ false
      → (m.id == "") ≡ false
      → 0 < key
      → validate_event_shape (written_event key now m capture (length inputs) audit) ≡ ok tt
  unfolding validate_event_shape stored_event
  captured-shape dated owned positive_key = ground (
    arith,
    dated,
    owned,
    positive_key,
    eq_refl m.id,
    detail-valid capture (length inputs),
    or_system-ne_empty (or_system audit.request_id),
    or_system-ne_empty (or_system audit.actor),
    or_system-ne_empty (or_system audit.role),
  )
