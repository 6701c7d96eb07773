-- ===== src/Runtime/Commands/BeginUninstall.antt =====
-- internal/app/repositories/runtime/internal/commands/begin_uninstall.go: the uninstall of an idle arrow starts.
use quiver_core.Prelude.{is_empty, is_some, not, ◌&&◌, Option, none, some, if◌then◌else◌, pos}
use quiver_core.Domain.ArrowState.{ready, uninstalling, outdated, state_eq, method_uninstall}
use quiver_core.Domain.Execution.{Namespace, ArrowRuntime}
use quiver_core.Runtime.Commands.Shared.{
  Err, validation, preserve_last_return, BeginArgs, new_execution,
}

unfoldable pub validate : Option ArrowRuntime → Option Err
validate none = some validation
validate (some r) =
    if is_empty r.ref
    then some validation
    else if not (state_eq r.state ready) && not (state_eq r.state outdated)
    then some validation
    else if is_some r.execution
    then some validation
    else none

unfoldable pub emit : Namespace → BeginArgs → Option ArrowRuntime → ArrowRuntime
unfolding preserve_last_return new_execution
emit ns c current = record {
  ref = ns;
  state = uninstalling;
  execution = some (new_execution method_uninstall c (pos 0));
  last_return = preserve_last_return current;
  pending_dep_sync = none;
}
