-- ===== src/Runtime/Commands/EndExecution.antt =====
-- internal/app/repositories/runtime/internal/commands/end_execution.go: the current run ends with an outcome.
use quiver_core.Prelude.{Str, str_eq, Bool, true, false, Option, none, some, if◌then◌else◌}
use quiver_core.Domain.ArrowState.{ArrowState, absent, ready, method_install, method_uninstall}
use quiver_core.Domain.Execution.{Namespace, Execution, Return, ArrowRuntime, ExecutionOutcome}
use quiver_core.Runtime.Commands.Shared.{Err, require_current_execution}

unfoldable pub validate : Str → Option ArrowRuntime → Option Err
unfolding require_current_execution
validate id current = require_current_execution current id

unfoldable pub is_success : ExecutionOutcome → Bool
is_success ExecutionOutcome.success = true
is_success ExecutionOutcome.failure = false
is_success ExecutionOutcome.cancelled = false

unfoldable pub state_after_end : Str → ExecutionOutcome → ArrowState
unfolding is_success
state_after_end method outcome =
    if str_eq method method_install
    then (if is_success outcome then ready else absent)
    else if str_eq method method_uninstall
    then (if is_success outcome then absent else ready)
    else ready

unfoldable pub return_of : Execution → ExecutionOutcome → Return
return_of x outcome = record {
  execution_id = x.id;
  method = x.method;
  outcome = outcome;
  steps = x.steps;
  variables = x.variables;
}

unfoldable pub ended : Namespace → ExecutionOutcome → ArrowRuntime → Execution → ArrowRuntime
unfolding state_after_end return_of
ended ns outcome r x = record {
  ref = ns;
  state = state_after_end x.method outcome;
  execution = none;
  last_return = some (return_of x outcome);
  pending_dep_sync = r.pending_dep_sync;
}

-- `none` is the panic on a nil pointer.
unfoldable pub emit : Namespace → ExecutionOutcome → Option ArrowRuntime → Option ArrowRuntime
unfolding ended
emit ns outcome none = none
emit ns outcome (some r) = elim r.execution [ none ↦ none | some x ↦ some (ended ns outcome r x) ]
