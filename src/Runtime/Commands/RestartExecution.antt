-- ===== src/Runtime/Commands/RestartExecution.antt =====
-- internal/app/repositories/runtime/internal/commands/restart_execution.go: the current run starts over with other steps.
use quiver_core.Prelude.{Str, Option, none, some, List, pos}
use quiver_core.Domain.Step.{Step}
use quiver_core.Domain.Execution.{Execution, ArrowRuntime}
use quiver_core.Runtime.Commands.Shared.{
  Err, initial_steps, require_current_execution, with_execution,
}

unfoldable pub validate : Str → Option ArrowRuntime → Option Err
unfolding require_current_execution
validate id current = require_current_execution current id

-- A new `Execution` from four fields of the current one: its pid and surface are reset.
unfoldable pub restarted : List Step → Execution → Execution
restarted steps x = record {
  id = x.id;
  method = x.method;
  steps = initial_steps steps;
  variables = x.variables;
  pid = pos 0;
  work_dir = x.work_dir;
  surface = none;
}

-- `none` is the panic on a nil pointer.
unfoldable pub emit : List Step → Option ArrowRuntime → Option ArrowRuntime
unfolding with_execution restarted
emit steps none = none
emit steps (some r) = elim r.execution [
  | none ↦ none
  | some x ↦ some (with_execution r (restarted steps x))
]
