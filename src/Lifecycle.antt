-- ===== src/Lifecycle.antt =====
-- internal/store/lifecycle.go: the transition tables of maintenances and targets. States are Go
-- strings, so any text can be asked about.
pub mod Graph
pub mod Paths
use lazarus.Base.{String, Bool, true, false, ◌||◌, ◌==◌, List, [], ◌∷◌, any, if◌then◌else◌}

-- A row of a transition map: a state and the states it may change to.
abbrev pub Transitions : Type 0
Transitions = List (String × List String)

unfoldable pub maintenance_transitions : Transitions
maintenance_transitions =
    ("new", "captured" ∷ "cancelled" ∷ "failed" ∷ [])
    ∷ ("captured", "stopping" ∷ "cancelled" ∷ "failed" ∷ [])
    ∷ ("stopping", "stopped" ∷ "failed" ∷ [])
    ∷ ("stopped", "waiting" ∷ "failed" ∷ [])
    ∷ ("waiting", "starting" ∷ "failed" ∷ [])
    ∷ ("starting", "completed" ∷ "failed" ∷ [])
    ∷ ("failed", "new" ∷ "captured" ∷ "stopping" ∷ "stopped" ∷ "waiting" ∷ "starting" ∷ [])
    ∷ []

unfoldable pub target_transitions : Transitions
target_transitions =
    ("captured", "stopping" ∷ "skipped" ∷ [])
    ∷ ("stopping", "stopped" ∷ "failed" ∷ "skipped" ∷ [])
    ∷ ("stopped", "starting" ∷ "skipped" ∷ [])
    ∷ ("starting", "healthy" ∷ "failed" ∷ "skipped" ∷ [])
    ∷ ("failed", "stopping" ∷ "starting" ∷ "skipped" ∷ [])
    ∷ []

-- `_, ok := table[state]`
abbrev pub has_key : String → Transitions → Bool
has_key s table = any (λ row. row.0 == s) table

-- `table[from][to]`: false where a key is missing
abbrev pub allows : Transitions → String → String → Bool
allows [] from to = false
allows (row ∷ table) from to =
    if row.0 == from then any (λ t. t == to) row.1 else allows table from to

unfoldable pub valid_maintenance_state : String → Bool
unfolding maintenance_transitions
valid_maintenance_state state =
    if state == "completed" || state == "cancelled"
    then true
    else has_key state maintenance_transitions

unfoldable pub valid_maintenance_transition : String → String → Bool
unfolding maintenance_transitions
valid_maintenance_transition from to = allows maintenance_transitions from to

unfoldable pub is_maintenance_terminal : String → Bool
is_maintenance_terminal state = state == "completed" || state == "failed" || state == "cancelled"

unfoldable pub valid_target_state : String → Bool
unfolding target_transitions
valid_target_state state =
    if state == "healthy" || state == "skipped" then true else has_key state target_transitions

unfoldable pub valid_target_transition : String → String → Bool
unfolding target_transitions
valid_target_transition from to = allows target_transitions from to

unfoldable pub target_completion_allowed : String → String → Bool
target_completion_allowed original current =
    if current == "skipped"
    then true
    else if original == "running"
    then current == "healthy"
    else if original == "stopped"
    then current == "stopped"
    else false

unfoldable pub target_phase_allowed : String → String → Bool
target_phase_allowed maintenance_state target_state =
    if target_state == "stopping" || target_state == "stopped"
    then maintenance_state == "stopping"
    else if target_state == "starting" || target_state == "healthy"
    then maintenance_state == "starting"
    else if target_state == "failed"
    then maintenance_state == "stopping" || maintenance_state == "starting"
    else false
