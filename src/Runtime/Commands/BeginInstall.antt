-- ===== src/Runtime/Commands/BeginInstall.antt =====
-- internal/app/repositories/runtime/internal/commands/begin_install.go: the install of an arrow starts.
use quiver_core.Prelude.{is_empty, is_some, ◌||◌, Option, none, some, if◌then◌else◌, pos}
use quiver_core.Domain.ArrowState.{absent, installing, removed, state_eq, method_install}
use quiver_core.Domain.Execution.{Namespace, ArrowRuntime}
use quiver_core.Runtime.Commands.Shared.{Err, validation, BeginArgs, new_execution}

unfoldable pub validate : Option ArrowRuntime → Option Err
validate none = none
validate (some r) =
    if is_empty r.ref
    then none
    else if is_some r.execution
    then some validation
    else if state_eq r.state absent || state_eq r.state removed
    then none
    else some validation

unfoldable pub emit : Namespace → BeginArgs → ArrowRuntime
unfolding new_execution
emit ns c = record {
  ref = ns;
  state = installing;
  execution = some (new_execution method_install c (pos 0));
  last_return = none;
  pending_dep_sync = none;
}
