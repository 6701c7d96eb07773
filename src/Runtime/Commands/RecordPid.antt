-- ===== src/Runtime/Commands/RecordPid.antt =====
-- internal/app/repositories/runtime/internal/commands/record_pid.go: the process of the current run is known.
use quiver_core.Prelude.{Str, Option, none, some, ℤ}
use quiver_core.Domain.Execution.{ArrowRuntime}
use quiver_core.Runtime.Commands.Shared.{Err, require_current_execution, with_execution}

unfoldable pub validate : Str → Option ArrowRuntime → Option Err
unfolding require_current_execution
validate id current = require_current_execution current id

-- `none` is the panic on a nil `current`; without an execution there is nothing to copy.
unfoldable pub emit : ℤ → Option ArrowRuntime → Option ArrowRuntime
unfolding with_execution
emit pid none = none
emit pid (some r) = elim r.execution [
  | none ↦ some r
  | some x ↦ some (with_execution r (record x { pid = pid }))
]
