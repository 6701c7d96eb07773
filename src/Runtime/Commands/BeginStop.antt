-- ===== src/Runtime/Commands/BeginStop.antt =====
-- internal/app/repositories/runtime/internal/commands/begin_stop.go: a stop takes over a running or detached arrow.
use quiver_core.Prelude.{
  str_eq, is_empty, Bool, false, ◌||◌, Option, none, some, if◌then◌else◌, ℤ, pos,
}
use quiver_core.Domain.ArrowState.{running, stopping, detached, state_eq, method_stop}
use quiver_core.Domain.Execution.{Namespace, Execution, ArrowRuntime}
use quiver_core.Runtime.Commands.Shared.{
  Err, validation, preserve_last_return, BeginArgs, new_execution,
}

-- `current.Execution != nil && current.Execution.Method == domain.MethodStop`
unfoldable pub is_stop_run : Option Execution → Bool
is_stop_run none = false
is_stop_run (some x) = str_eq x.method method_stop

unfoldable pub validate : Option ArrowRuntime → Option Err
validate none = some validation
validate (some r) =
    if is_empty r.ref
    then some validation
    else if is_stop_run r.execution
    then some validation
    else if state_eq r.state running || state_eq r.state detached
    then none
    else some validation

unfoldable pub execution_pid : Option Execution → ℤ
execution_pid none = pos 0
execution_pid (some x) = x.pid

-- The pid that the stopping run keeps from the one it stops.
unfoldable pub current_pid : Option ArrowRuntime → ℤ
unfolding execution_pid
current_pid none = pos 0
current_pid (some r) = execution_pid r.execution

unfoldable pub emit : Namespace → BeginArgs → Option ArrowRuntime → ArrowRuntime
unfolding preserve_last_return new_execution current_pid
emit ns c current = record {
  ref = ns;
  state = stopping;
  execution = some (new_execution method_stop c (current_pid current));
  last_return = preserve_last_return current;
  pending_dep_sync = none;
}
