-- ===== src/Runtime/Command/Safety.antt =====
-- The runtime's commands never panic: what `Validate` lets through, `EmitEvent` can carry out.
use quiver_core.Prelude.{pos, negsuc, true, Option, none, some, ◌≡◌, arith, is_some}
use quiver_core.Domain.Execution.{Namespace, ArrowRuntime}
use quiver_core.Runtime.Commands
use quiver_core.Runtime.Command.{Command, validate, emit}

-- `EmitEvent` returns for every aggregate, nil included, on which `Validate` returned nil: no nil
-- pointer is read and no step index is out of range.
pub validated_emits :
    (ns : Namespace) (c : Command) (current : Option ArrowRuntime)
    → validate c current ≡ none
    → is_some (emit ns c current) ≡ true
unfolding validate emit
validated_emits ns (Command.advance_step id i status error remark) none h =
    unfold Commands.AdvanceStep.validate in cc
validated_emits ns (Command.advance_step id (negsuc i) status error remark) (some r) h =
    unfold Commands.AdvanceStep.validate Commands.AdvanceStep.emit in ground arith
validated_emits ns (Command.advance_step id (pos i) status error remark) (some r) h =
    unfold Commands.AdvanceStep.validate Commands.AdvanceStep.emit in ground arith
validated_emits ns _ current h =
    unfold Commands.RecordPid.emit Commands.SetSurface.emit Commands.ClearSurface.emit
      Commands.ClearSurface.validate Commands.RestartExecution.emit
      Commands.RestartExecution.validate Commands.EndExecution.emit Commands.EndExecution.validate
      Commands.RecordDetached.emit Commands.RecordDetached.validate Commands.RecordPid.validate
      Commands.SetSurface.validate Commands.RecoverInterrupted.emit
      Commands.RecoverInterrupted.validate in
    ground arith
