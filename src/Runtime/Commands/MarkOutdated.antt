-- ===== src/Runtime/Commands/MarkOutdated.antt =====
-- internal/app/repositories/runtime/internal/commands/mark_outdated.go: the dependencies of an installed arrow changed.
use quiver_core.Prelude.{not, ◌&&◌, Option, none, some, if◌then◌else◌}
use quiver_core.Domain.ArrowState.{ready, outdated, state_eq}
use quiver_core.Domain.Execution.{Namespace, ArrowRuntime, DepSyncInfo}
use quiver_core.Runtime.Commands.Shared.{Err, validation, preserve_last_return}

unfoldable pub validate : Option ArrowRuntime → Option Err
validate none = none
validate (some r) =
    if not (state_eq r.state ready) && not (state_eq r.state outdated)
    then some validation
    else none

unfoldable pub emit : Namespace → DepSyncInfo → Option ArrowRuntime → ArrowRuntime
unfolding preserve_last_return
emit ns sync current = record {
  ref = ns;
  state = outdated;
  execution = none;
  last_return = preserve_last_return current;
  pending_dep_sync = some sync;
}
