-- ===== src/Runtime/Commands/Shared.antt =====
-- What the runtime's commands share: current_execution.go, and the helpers of begin_execution.go.
-- A `current` of `none` is the nil pointer of an aggregate that does not exist.
use quiver_core.Prelude.{
  ℕ, suc, Str, str_eq, is_empty, Option, none, some, List, [], ◌∷◌, Dict, if◌then◌else◌, ℤ,
}
use quiver_core.Domain.Step.{Step}
use quiver_core.Domain.Execution.{StepProgress, StepStatus, Execution, Return, ArrowRuntime}

-- Every error wraps `ErrValidation`; progress of a run that was taken over also wraps
-- `ErrExecutionSuperseded`.
pub data Err : Type 0 where
  validation superseded : Err

-- The loop of `initialSteps`, at index `i`.
unfoldable pub initial_steps_from : ℕ → List Step → List StepProgress
initial_steps_from i [] = []
initial_steps_from i (s ∷ steps) =
    record { index = i; status = StepStatus.pending; error = none; note = none; step = some s }
    ∷ initial_steps_from (suc i) steps

unfoldable pub initial_steps : List Step → List StepProgress
initial_steps steps = initial_steps_from 0 steps

unfoldable pub preserve_last_return : Option ArrowRuntime → Option Return
preserve_last_return none = none
preserve_last_return (some r) = r.last_return

-- The fields that the `Begin` commands share, but for the namespace.
pub record BeginArgs : Type 0 where
  pub execution_id : Str
  pub steps : List Step
  pub variables : Dict Str
  pub work_dir : Str

-- The `Execution` that a begin command opens for a method.
unfoldable pub new_execution : Str → BeginArgs → ℤ → Execution
new_execution method c pid = record {
  id = c.execution_id;
  method = method;
  steps = initial_steps c.steps;
  variables = c.variables;
  pid = pid;
  work_dir = c.work_dir;
  surface = none;
}

-- The tests of `requireCurrentExecution` on `current.Execution`.
unfoldable pub require_execution : Option Execution → Str → Option Err
require_execution none id = some validation
require_execution (some x) id = if str_eq x.id id then none else some superseded

unfoldable pub require_current_execution : Option ArrowRuntime → Str → Option Err
unfolding require_execution
require_current_execution none id = some validation
require_current_execution (some r) id =
    if is_empty r.ref then some validation else require_execution r.execution id

-- The runtime with another execution, all else kept.
unfoldable pub with_execution : ArrowRuntime → Execution → ArrowRuntime
with_execution r x = record r { execution = some x }
