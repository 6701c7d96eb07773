-- ===== src/Runtime/Commands/RecoverInterrupted.antt =====
-- internal/app/repositories/runtime/internal/commands/recover_interrupted.go: a run that a crash cut off is settled.
use quiver_core.Prelude.{is_empty, Bool, true, false, Option, none, some, if◌then◌else◌}
use quiver_core.Domain.ArrowState.{
  ArrowState, absent, installing, updating, ready, running, stopping, draining, uninstalling,
}
use quiver_core.Domain.Execution.{Namespace, ArrowRuntime}
use quiver_core.Runtime.Commands.Shared.{Err, validation}

-- The states that the first `case` of `Validate` lists.
unfoldable pub is_transient : ArrowState → Bool
is_transient installing = true
is_transient uninstalling = true
is_transient updating = true
is_transient running = true
is_transient stopping = true
is_transient draining = true
is_transient _ = false

unfoldable pub validate : Option ArrowRuntime → Option Err
unfolding is_transient
validate none = some validation
validate (some r) =
    if is_empty r.ref
    then some validation
    else if is_transient r.state
    then none
    else some validation

unfoldable pub stable_state_for : ArrowState → ArrowState
stable_state_for installing = absent
stable_state_for uninstalling = absent
stable_state_for updating = absent
stable_state_for _ = ready

-- `none` is the panic on a nil `current`.
unfoldable pub emit : Namespace → Option ArrowRuntime → Option ArrowRuntime
unfolding stable_state_for
emit ns none = none
emit ns (some r) = some (record {
  ref = ns;
  state = stable_state_for r.state;
  execution = none;
  last_return = r.last_return;
  pending_dep_sync = none;
})
