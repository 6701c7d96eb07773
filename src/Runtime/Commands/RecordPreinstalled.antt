-- ===== src/Runtime/Commands/RecordPreinstalled.antt =====
-- internal/app/repositories/runtime/internal/commands/record_preinstalled.go: an arrow that was there already is installed.
use quiver_core.Prelude.{is_empty, is_some, not, ◌&&◌, Option, none, some, if◌then◌else◌}
use quiver_core.Domain.ArrowState.{absent, ready, state_eq}
use quiver_core.Domain.Execution.{Namespace, ArrowRuntime}
use quiver_core.Runtime.Commands.Shared.{Err, validation}

unfoldable pub validate : Option ArrowRuntime → Option Err
validate none = none
validate (some r) =
    if is_empty r.ref
    then none
    else if is_some r.execution
    then some validation
    else if not (state_eq r.state absent) && not (state_eq r.state ready)
    then some validation
    else none

unfoldable pub emit : Namespace → Option ArrowRuntime → ArrowRuntime
emit ns none = record {
  ref = ns;
  state = ready;
  execution = none;
  last_return = none;
  pending_dep_sync = none;
}
emit ns (some r) = record {
  ref = ns;
  state = ready;
  execution = none;
  last_return = r.last_return;
  pending_dep_sync = r.pending_dep_sync;
}
