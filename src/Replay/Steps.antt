-- ===== src/Replay/Steps.antt =====
-- One more event, and a replay before the capture.
use lazarus.Base.{◌≡◌, inl, inr, List, [], ◌∷◌, ◌++◌, arith}
use lazarus.Env.{Env}
use lazarus.Errors.{ok}
use lazarus.Errors.Chains.{result_outcome}
use lazarus.Model.{Event}
use lazarus.Replay.{ReplayMaintenance, SavedCapture, apply}
use lazarus.Replay.Shape.{validate_event_shape}
use lazarus.Verify.{replay_events, no_capture}

-- A replay goes on from the state that it had reached.
pub replay_events-append :
    (env : Env) (saved : SavedCapture) (r : ReplayMaintenance) (es fs : List Event)
    {r' : ReplayMaintenance}
    → replay_events env saved r es ≡ ok r'
    → replay_events env saved r (es ++ fs) ≡ replay_events env saved r' fs
unfolding replay_events
replay_events-append env saved r [] fs h = ground (arith, h)
replay_events-append env saved r (e ∷ es) fs {r'} h = elim (result_outcome (apply env saved r e)) [
  | inl (next, step) ↦ ground (arith, step, replay_events-append env saved next es fs {r' = r'})
  | inr (_, stop) ↦ ground (arith, stop, h)
]

pub replay_events-one :
    (env : Env) (saved : SavedCapture) (r : ReplayMaintenance) (e : Event) {r' : ReplayMaintenance}
    → validate_event_shape e ≡ ok tt
    → apply env saved r e ≡ ok r'
    → replay_events env saved r (e ∷ []) ≡ ok r'
unfolding replay_events
replay_events-one env saved r e shape step = ground arith

pub no_capture-apply :
    (env : Env) (saved : SavedCapture) (r : ReplayMaintenance) (e : Event) {r' : ReplayMaintenance}
    → apply env no_capture r e ≡ ok r'
    → apply env saved r e ≡ ok r'
unfolding apply
no_capture-apply env saved r e h = ground arith
