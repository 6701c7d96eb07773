-- ===== src/Runtime/Commands/AdvanceStep.antt =====
-- internal/app/repositories/runtime/internal/commands/advance_step.go: one step of the current run reports progress.
-- `emit` is `none` where the Go code would panic: a nil pointer or an index out of range.
use quiver_core.Prelude.{
  Str, not, Bool, true, Option, none, some, List, if◌then◌else◌, ℤ, pos, negsuc, ltb, length,
  modify,
}
use quiver_core.Domain.Execution.{StepProgress, StepStatus, Execution, ArrowRuntime}
use quiver_core.Runtime.Commands.Shared.{Err, validation, require_current_execution, with_execution}

-- `c.StepIndex < 0 || c.StepIndex >= len(steps)`
unfoldable pub out_of_range : ℤ → List StepProgress → Bool
out_of_range (pos i) steps = not (ltb i (length steps))
out_of_range (negsuc i) steps = true

unfoldable pub index_check : Option Execution → ℤ → Option Err
unfolding out_of_range
index_check none i = none
index_check (some x) i = if out_of_range i x.steps then some validation else none

unfoldable pub validate : Str → ℤ → Option ArrowRuntime → Option Err
unfolding require_current_execution index_check
validate id i none = some validation
validate id i (some r) = elim (require_current_execution (some r) id) [
  | some e ↦ some e
  | none ↦ index_check r.execution i
]

-- The three assignments to `steps[c.StepIndex]`.
unfoldable pub report : StepStatus → Option Str → Option Str → StepProgress → StepProgress
report status error remark p = record p { status = status; error = error; note = remark }

unfoldable pub advance_at :
    ℤ → StepStatus → Option Str → Option Str → ArrowRuntime → Execution → Option ArrowRuntime
unfolding report with_execution
advance_at (negsuc i) status error remark r x = none
advance_at (pos i) status error remark r x =
    if ltb i (length x.steps)
    then some
        (with_execution r (record x { steps = modify x.steps i (report status error remark) }))
    else none

unfoldable pub emit :
    ℤ → StepStatus → Option Str → Option Str → Option ArrowRuntime → Option ArrowRuntime
unfolding advance_at
emit i status error remark none = none
emit i status error remark (some r) = elim r.execution [
  | none ↦ none
  | some x ↦ advance_at i status error remark r x
]
