-- ===== src/Ruleset/MethodStates.antt =====
-- internal/engine/manifold/ruleset/arrow/method_states.go: a custom method may only be available in
-- ready or running. An error is modelled by the state that its message names.
use quiver_core.Prelude.{Bool, true, false, List, [], ◌∷◌, if◌then◌else◌}
use quiver_core.Domain.ArrowState.{ArrowState, ready, running}

-- The map `validMethodStates`; a key that it lacks reads false.
unfoldable pub valid_method_states : ArrowState → Bool
valid_method_states ready = true
valid_method_states running = true
valid_method_states _ = false

unfoldable pub check_method_available_in : List ArrowState → List ArrowState
unfolding valid_method_states
check_method_available_in [] = []
check_method_available_in (s ∷ rest) =
    if valid_method_states s
    then check_method_available_in rest
    else s ∷ check_method_available_in rest
