-- ===== src/Runtime/Commands/MarkVersionOutdated.antt =====
-- internal/app/repositories/runtime/internal/commands/mark_version_outdated.go: a newer release of an idle arrow exists.
use quiver_core.Prelude.{is_empty, is_some, not, ◌&&◌, Option, none, some, if◌then◌else◌}
use quiver_core.Domain.ArrowState.{ready, outdated, state_eq}
use quiver_core.Domain.Execution.{Namespace, ArrowRuntime, DepSyncInfo}
use quiver_core.Runtime.Commands.Shared.{Err, validation, preserve_last_return}

unfoldable pub validate : Option ArrowRuntime → Option Err
validate none = some validation
validate (some r) =
    if is_empty r.ref
    then some validation
    else if is_some r.execution
    then some validation
    else if not (state_eq r.state ready) && not (state_eq r.state outdated)
    then some validation
    else none

unfoldable pub preserve_pending_dep_sync : Option ArrowRuntime → Option DepSyncInfo
preserve_pending_dep_sync none = none
preserve_pending_dep_sync (some r) = r.pending_dep_sync

unfoldable pub emit : Namespace → Option ArrowRuntime → ArrowRuntime
unfolding preserve_last_return preserve_pending_dep_sync
emit ns current = record {
  ref = ns;
  state = outdated;
  execution = none;
  last_return = preserve_last_return current;
  pending_dep_sync = preserve_pending_dep_sync current;
}
