-- ===== src/Lifecycle/Graph.antt =====
-- The transition tables of internal/store/lifecycle.go as graphs: what holds of every edge is
-- checked on the finite table.
use lazarus.Base.{
  String, ◌≡◌, refl, sym, inl, inr, Bool, true, false, not, ◌&&◌, ◌||◌, ◌==◌, eq_iff, arith,
  Bool-cases, List, [], ◌∷◌, all, any,
}
use lazarus.Lifecycle.{
  Transitions, allows, maintenance_transitions, valid_maintenance_state,
  valid_maintenance_transition, valid_target_state, target_transitions, valid_target_transition,
}

-- a test of a state and the state that it may change to, at every edge of a table
abbrev on_edges : (String → String → Bool) → Transitions → Bool
on_edges test table = all (λ row. all (test row.0) row.1) table

all-any :
    (p : String → Bool) (xs : List String)
    → all p xs ≡ true
    → (x : String) → any (λ t. t == x) xs ≡ true
    → p x ≡ true
all-any p [] h x m = cc
all-any p (y ∷ xs) h x m = elim (Bool-cases (y == x)) [
  | inl e ↦ rw (sym ((eq_iff y x).0 e)) (ground (arith, h))
  | inr e ↦ all-any p xs (ground (arith, h)) x (ground (arith, e, m))
]

on_edges-allows :
    (test : String → String → Bool) (table : Transitions)
    → on_edges test table ≡ true
    → (from to : String) → allows table from to ≡ true
    → test from to ≡ true
on_edges-allows test [] h from to edge = cc
on_edges-allows test ((key, targets) ∷ table) h from to edge = elim (Bool-cases (key == from)) [
  | inl e ↦
      rw (sym ((eq_iff key from).0 e))
        (all-any (test key) targets (ground (arith, h)) to (ground (arith, e, edge)))
  | inr e ↦ on_edges-allows test table (ground (arith, h)) from to (ground (arith, e, edge))
]

abbrev sound_edge : String → String → Bool
sound_edge from to =
    valid_maintenance_state from
    && valid_maintenance_state to
    && not (from == "completed")
    && not (from == "cancelled")
    && not (from == to)

-- A maintenance transition joins states that the state test accepts, and never leaves `completed`
-- or `cancelled`, nor stays where it is.
pub maintenance_edges_sound :
    (from to : String)
    → valid_maintenance_transition from to ≡ true
    → (valid_maintenance_state from ≡ true)
      × (valid_maintenance_state to ≡ true)
      × ((from == "completed") ≡ false)
      × ((from == "cancelled") ≡ false)
      × ((from == to) ≡ false)
unfolding valid_maintenance_transition
maintenance_edges_sound from to edge = ground (
  arith,
  on_edges-allows sound_edge maintenance_transitions (unfold valid_maintenance_state in refl) from
      to edge,
)

abbrev sound_target_edge : String → String → Bool
sound_target_edge from to =
    valid_target_state from
    && valid_target_state to
    && not (from == "healthy")
    && not (from == "skipped")
    && not (from == to)
    && valid_target_transition from "skipped"

-- A target transition joins accepted states, never leaves `healthy` or `skipped`, nor stays where
-- it is; and from every state that it can leave, the target can be skipped.
pub target_edges_sound :
    (from to : String)
    → valid_target_transition from to ≡ true
    → (valid_target_state from ≡ true)
      × (valid_target_state to ≡ true)
      × ((from == "healthy") ≡ false)
      × ((from == "skipped") ≡ false)
      × ((from == to) ≡ false)
      × (valid_target_transition from "skipped" ≡ true)
unfolding valid_target_transition
target_edges_sound from to edge = ground (
  arith,
  on_edges-allows sound_target_edge target_transitions
      (unfold valid_target_state valid_target_transition in refl) from to edge,
)

abbrev enters : String → String → Bool
enters from to =
    (not (to == "cancelled") || from == "new" || from == "captured")
    && (not (to == "new") || from == "failed")

-- Only a maintenance that is new or captured can be cancelled, and only a failed one is new again.
pub maintenance_entries :
    (from to : String)
    → valid_maintenance_transition from to ≡ true
    → ((to == "cancelled") ≡ true → (from == "new" || from == "captured") ≡ true)
      × ((to == "new") ≡ true → (from == "failed") ≡ true)
unfolding valid_maintenance_transition
maintenance_entries from to edge =
    let held = on_edges-allows enters maintenance_transitions refl from to edge in
    (λ e. ground (arith, held, e), λ e. ground (arith, held, e))
