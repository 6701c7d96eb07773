-- ===== src/Runtime/Commands/BeginUpdate.antt =====
-- internal/app/repositories/runtime/internal/commands/begin_update.go: the update of an idle arrow starts.
use quiver_core.Prelude.{is_empty, not, ◌&&◌, Option, none, some, if◌then◌else◌, pos}
use quiver_core.Domain.ArrowState.{updating, ready, outdated, state_eq, method_update}
use quiver_core.Domain.Execution.{Namespace, ArrowRuntime}
use quiver_core.Runtime.Commands.Shared.{
  Err, validation, preserve_last_return, BeginArgs, new_execution,
}

unfoldable pub validate : Option ArrowRuntime → Option Err
validate none = some validation
validate (some r) =
    if is_empty r.ref
    then some validation
    else if not (state_eq r.state outdated) && not (state_eq r.state ready)
    then some validation
    else none

unfoldable pub emit : Namespace → BeginArgs → Option ArrowRuntime → ArrowRuntime
unfolding preserve_last_return new_execution
emit ns c current = record {
  ref = ns;
  state = updating;
  execution = some (new_execution method_update c (pos 0));
  last_return = preserve_last_return current;
  pending_dep_sync = none;
}
