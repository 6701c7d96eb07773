-- ===== src/Runtime/Commands/RecordDetached.antt =====
-- internal/app/repositories/runtime/internal/commands/record_detached.go: a process outlived the daemon that ran it.
use quiver_core.Prelude.{is_empty, not, Option, none, some, if◌then◌else◌}
use quiver_core.Domain.ArrowState.{detached, can_transition_to}
use quiver_core.Domain.Execution.{ArrowRuntime}
use quiver_core.Runtime.Commands.Shared.{Err, validation}

unfoldable pub validate : Option ArrowRuntime → Option Err
validate none = some validation
validate (some r) =
    if is_empty r.ref
    then some validation
    else if not (can_transition_to r.state detached)
    then some validation
    else none

-- `none` is the panic on a nil `current`.
unfoldable pub emit : Option ArrowRuntime → Option ArrowRuntime
emit none = none
emit (some r) = some (record {
  ref = r.ref;
  state = detached;
  execution = none;
  last_return = r.last_return;
  pending_dep_sync = none;
})
