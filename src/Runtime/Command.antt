-- ===== src/Runtime/Command.antt =====
-- internal/app/repositories/runtime/internal/commands: the commands as one type, each with its
-- `Validate` and its `EmitEvent`.
pub mod Safety
use quiver_core.Prelude.{ℤ, Str, Option, none, some, List}
use quiver_core.Domain.ArrowState.{ArrowState}
use quiver_core.Domain.Step.{Step}
use quiver_core.Domain.Execution.{
  Namespace, StepStatus, ExecutionOutcome, Surface, DepSyncInfo, ArrowRuntime,
}
use quiver_core.Runtime.Commands
use quiver_core.Runtime.Commands.Shared.{Err, BeginArgs}

pub data Command : Type 0 where
  begin_install : BeginArgs → Command
  begin_uninstall : BeginArgs → Command
  begin_update : BeginArgs → Command
  begin_stop : BeginArgs → Command
  begin_execution : (method : Str) (available_in : List ArrowState) → BeginArgs → Command
  advance_step :
      (execution_id : Str) (step_index : ℤ) (to_status : StepStatus) (error remark : Option Str)
      → Command
  record_pid : (execution_id : Str) (pid : ℤ) → Command
  set_surface : (execution_id : Str) → Surface → Command
  clear_surface : (execution_id : Str) → Command
  restart_execution : (execution_id : Str) → List Step → Command
  end_execution : (execution_id : Str) → ExecutionOutcome → Command
  mark_outdated : DepSyncInfo → Command
  mark_version_outdated : Command
  clear_version_outdated : Command
  record_detached : Command
  record_preinstalled : Command
  recover_interrupted : Command

-- `Validate` of each command.
unfoldable pub validate : Command → Option ArrowRuntime → Option Err
validate (begin_install c) r = Commands.BeginInstall.validate r
validate (begin_uninstall c) r = Commands.BeginUninstall.validate r
validate (begin_update c) r = Commands.BeginUpdate.validate r
validate (begin_stop c) r = Commands.BeginStop.validate r
validate (begin_execution method available_in c) r = Commands.BeginExecution.validate available_in r
validate (advance_step id i status error remark) r = Commands.AdvanceStep.validate id i r
validate (record_pid id pid) r = Commands.RecordPid.validate id r
validate (set_surface id surface) r = Commands.SetSurface.validate id r
validate (clear_surface id) r = Commands.ClearSurface.validate id r
validate (restart_execution id steps) r = Commands.RestartExecution.validate id r
validate (end_execution id outcome) r = Commands.EndExecution.validate id r
validate (mark_outdated sync) r = Commands.MarkOutdated.validate r
validate mark_version_outdated r = Commands.MarkVersionOutdated.validate r
validate clear_version_outdated r = Commands.ClearVersionOutdated.validate r
validate record_detached r = Commands.RecordDetached.validate r
validate record_preinstalled r = Commands.RecordPreinstalled.validate r
validate recover_interrupted r = Commands.RecoverInterrupted.validate r

-- `EmitEvent` of each command for the aggregate `ns` (its `AggregateID`); `none` where the Go code
-- would panic.
unfoldable pub emit : Namespace → Command → Option ArrowRuntime → Option ArrowRuntime
emit ns (begin_install c) r = some (Commands.BeginInstall.emit ns c)
emit ns (begin_uninstall c) r = some (Commands.BeginUninstall.emit ns c r)
emit ns (begin_update c) r = some (Commands.BeginUpdate.emit ns c r)
emit ns (begin_stop c) r = some (Commands.BeginStop.emit ns c r)
emit ns (begin_execution method available_in c) r =
    some (Commands.BeginExecution.emit ns method c r)
emit ns (advance_step id i status error remark) r =
    Commands.AdvanceStep.emit i status error remark r
emit ns (record_pid id pid) r = Commands.RecordPid.emit pid r
emit ns (set_surface id surface) r = Commands.SetSurface.emit surface r
emit ns (clear_surface id) r = Commands.ClearSurface.emit r
emit ns (restart_execution id steps) r = Commands.RestartExecution.emit steps r
emit ns (end_execution id outcome) r = Commands.EndExecution.emit ns outcome r
emit ns (mark_outdated sync) r = some (Commands.MarkOutdated.emit ns sync r)
emit ns mark_version_outdated r = some (Commands.MarkVersionOutdated.emit ns r)
emit ns clear_version_outdated r = some (Commands.ClearVersionOutdated.emit ns r)
emit ns record_detached r = Commands.RecordDetached.emit r
emit ns record_preinstalled r = some (Commands.RecordPreinstalled.emit ns r)
emit ns recover_interrupted r = Commands.RecoverInterrupted.emit ns r
