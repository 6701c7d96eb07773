-- ===== src/Runtime/Commands/ClearSurface.antt =====
-- internal/app/repositories/runtime/internal/commands/clear_surface.go: the current run closes its interface.
use quiver_core.Prelude.{Str, Option, none, some}
use quiver_core.Domain.Execution.{ArrowRuntime}
use quiver_core.Runtime.Commands.Shared.{Err, require_current_execution, with_execution}

unfoldable pub validate : Str → Option ArrowRuntime → Option Err
unfolding require_current_execution
validate id current = require_current_execution current id

-- `none` is the panic on a nil pointer.
unfoldable pub emit : Option ArrowRuntime → Option ArrowRuntime
unfolding with_execution
emit none = none
emit (some r) = elim r.execution [
  | none ↦ none
  | some x ↦ some (with_execution r (record x { surface = none }))
]
