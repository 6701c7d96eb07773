-- ===== src/Runtime/Commands/SetSurface.antt =====
-- internal/app/repositories/runtime/internal/commands/set_surface.go: the current run opens an interface.
use quiver_core.Prelude.{Str, Option, none, some}
use quiver_core.Domain.Execution.{ArrowRuntime, Surface}
use quiver_core.Runtime.Commands.Shared.{Err, require_current_execution, with_execution}

unfoldable pub validate : Str → Option ArrowRuntime → Option Err
unfolding require_current_execution
validate id current = require_current_execution current id

-- `none` is the panic on a nil `current`; without an execution there is nothing to copy.
unfoldable pub emit : Surface → Option ArrowRuntime → Option ArrowRuntime
unfolding with_execution
emit surface none = none
emit surface (some r) = elim r.execution [
  | none ↦ some r
  | some x ↦ some (with_execution r (record x { surface = some surface }))
]
