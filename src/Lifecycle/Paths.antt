-- ===== src/Lifecycle/Paths.antt =====
-- Paths through the transition table of maintenances in internal/store/lifecycle.go.
use lazarus.Base.{
  String, ◌≡◌, refl, ◌⊎◌, inl, inr, true, false, ◌||◌, ◌==◌, eq_iff, arith, Bool-cases,
}
use lazarus.Lifecycle.{
  maintenance_transitions, valid_maintenance_state, valid_maintenance_transition,
}

-- a state is reached from another along the edges of the table
pub data Reaches : String → String → Type 0 where
  here : {s : String} → Reaches s s
  edge :
      {from via to : String}
      → valid_maintenance_transition from via ≡ true
      → Reaches via to
      → Reaches from to

-- the table leads from the state to `completed`, or the state is `cancelled`
abbrev Ends : String → Type 0
Ends s = Reaches s "completed" ⊎ (s ≡ "cancelled")

starting_path : Reaches "starting" "completed"
unfolding valid_maintenance_transition
starting_path = edge refl here

waiting_path : Reaches "waiting" "completed"
unfolding valid_maintenance_transition
waiting_path = edge refl starting_path

stopped_path : Reaches "stopped" "completed"
unfolding valid_maintenance_transition
stopped_path = edge refl waiting_path

stopping_path : Reaches "stopping" "completed"
unfolding valid_maintenance_transition
stopping_path = edge refl stopped_path

captured_path : Reaches "captured" "completed"
unfolding valid_maintenance_transition
captured_path = edge refl stopping_path

new_path : Reaches "new" "completed"
unfolding valid_maintenance_transition
new_path = edge refl captured_path

failed_path : Reaches "failed" "completed"
unfolding valid_maintenance_transition
failed_path = edge refl new_path

-- the state is the known one, or another
either : (s known : String) → Ends known → ((s == known) ≡ false → Ends s) → Ends s
either s known ends further = elim (Bool-cases (s == known)) [
  | inl e ↦ rw ((eq_iff s known).0 e) ends
  | inr e ↦ further e
]

-- the key of the table is the state, or another is
key : (s known : String) → Ends known → ((known == s) ≡ false → Ends s) → Ends s
key s known ends further = elim (Bool-cases (known == s)) [
  | inl e ↦ rw (← (eq_iff known s).0 e) ends
  | inr e ↦ further e
]

valid_state-listed :
    (s : String)
    → valid_maintenance_state s ≡ true
    → (s == "completed"
        || s == "cancelled"
        || "new" == s
        || "captured" == s
        || "stopping" == s
        || "stopped" == s
        || "waiting" == s
        || "starting" == s
        || "failed" == s)
      ≡ true
unfolding valid_maintenance_state maintenance_transitions
valid_state-listed s h = ground (arith, h)

no_state : {s : String} → true ≡ false → Ends s
no_state h = cc

-- From every state of the table but for `cancelled`, the table of maintenance transitions has a path
-- to `completed`.
pub maintenance_paths :
    (s : String) → valid_maintenance_state s ≡ true → Reaches s "completed" ⊎ (s ≡ "cancelled")
maintenance_paths s valid = either s "completed" (inl here) λ a.
    either s "cancelled" (inr refl) λ b. key s "new" (inl new_path) λ c.
      key s "captured" (inl captured_path) λ d. key s "stopping" (inl stopping_path) λ e.
        key s "stopped" (inl stopped_path) λ f. key s "waiting" (inl waiting_path) λ g.
          key s "starting" (inl starting_path) λ h.
            key s "failed" (inl failed_path)
              λ i. no_state (ground (arith, valid_state-listed s valid, a, b, c, d, e, f, g, h, i))
