-- ===== src/Runtime/Commands/BeginExecution.antt =====
-- internal/app/repositories/runtime/internal/commands/begin_execution.go: a custom method, or `_execute`, starts.
use quiver_core.Prelude.{
  Str, is_empty, is_some, not, Bool, true, false, ◌&&◌, ◌||◌, Option, none, some, List, [], ◌∷◌,
  if◌then◌else◌, pos,
}
use quiver_core.Domain.ArrowState.{ArrowState, ready, running, outdated, state_eq}
use quiver_core.Domain.Execution.{Namespace, ArrowRuntime}
use quiver_core.Runtime.Commands.Shared.{
  Err, validation, preserve_last_return, BeginArgs, new_execution,
}

unfoldable pub is_version_drift_outdated : ArrowRuntime → Bool
is_version_drift_outdated r = state_eq r.state outdated && not (is_some r.pending_dep_sync)

-- The loop over `AvailableIn`.
unfoldable pub available : List ArrowState → ArrowRuntime → Bool
unfolding is_version_drift_outdated
available [] r = false
available (s ∷ rest) r =
    if state_eq s r.state
    then true
    else if state_eq s ready && is_version_drift_outdated r
    then true
    else available rest r

-- What `Validate` tests last; `len(c.AvailableIn) == 0` has a test of its own.
unfoldable pub startable : List ArrowState → ArrowRuntime → Bool
unfolding available is_version_drift_outdated
startable [] r = state_eq r.state ready || is_version_drift_outdated r
startable (s ∷ rest) r = available (s ∷ rest) r

unfoldable pub validate : List ArrowState → Option ArrowRuntime → Option Err
validate available_in none = some validation
validate available_in (some r) =
    if is_empty r.ref
    then some validation
    else if is_some r.execution
    then some validation
    else if startable available_in r
    then none
    else some validation

unfoldable pub emit : Namespace → Str → BeginArgs → Option ArrowRuntime → ArrowRuntime
unfolding preserve_last_return new_execution
emit ns method c current = record {
  ref = ns;
  state = running;
  execution = some (new_execution method c (pos 0));
  last_return = preserve_last_return current;
  pending_dep_sync = none;
}
