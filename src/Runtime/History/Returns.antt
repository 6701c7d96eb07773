-- ===== src/Runtime/History/Returns.antt =====
-- What is remembered of the last run that ended.
use quiver_core.Prelude.{pos, negsuc, Str, Bool, true, false, some, ◌≡◌, arith, ◌≢◌}
use quiver_core.Domain.ArrowState.{ArrowState, ready, absent, method_install, method_uninstall}
use quiver_core.Domain.Execution.{Namespace, Execution, ExecutionOutcome, success, ArrowRuntime}
use quiver_core.Runtime.Commands
use quiver_core.Runtime.Command.{Command, emit}
use quiver_core.Runtime.History.{Accepts, accept}

-- The commands that set or reset the last return: an install starts afresh, an end records one.
abbrev pub rewrites_return : Command → Bool
rewrites_return (Command.begin_install c) = true
rewrites_return (Command.end_execution id outcome) = true
rewrites_return _ = false

emit-last_return :
    (ns : Namespace) (c : Command) (r : ArrowRuntime) {next : ArrowRuntime}
    → rewrites_return c ≡ false
    → emit ns c (some r) ≡ some next
    → next.last_return ≡ r.last_return
unfolding emit
emit-last_return ns (Command.advance_step id (pos i) status error remark) r k e =
    unfold Commands.AdvanceStep.emit in ground arith
emit-last_return ns (Command.advance_step id (negsuc i) status error remark) r k e =
    unfold Commands.AdvanceStep.emit in ground arith
emit-last_return ns _ r k e =
    unfold Commands.BeginUninstall.emit Commands.BeginUpdate.emit Commands.BeginStop.emit
      Commands.BeginExecution.emit Commands.RecordPid.emit Commands.SetSurface.emit
      Commands.ClearSurface.emit Commands.RestartExecution.emit Commands.MarkOutdated.emit
      Commands.MarkVersionOutdated.emit Commands.ClearVersionOutdated.emit
      Commands.RecordDetached.emit Commands.RecordPreinstalled.emit
      Commands.RecoverInterrupted.emit in
    ground arith

-- Every accepted command but an install and the end of a run keeps what is remembered of the last
-- run that ended.
pub Accepts-last_return :
    {ns : Namespace} {r next : ArrowRuntime} {c : Command}
    → rewrites_return c ≡ false
    → Accepts ns (some r) c next
    → next.last_return ≡ r.last_return
Accepts-last_return {ns} {r} {c = c} k (accept h e) = emit-last_return ns c r k e

-- Where an arrow comes to rest after a run of a method.
pub data EndsIn (method : Str) : ExecutionOutcome → ArrowState → Type 0 where
  installed : method ≡ method_install → EndsIn method success ready
  not_installed :
      {o : ExecutionOutcome} → method ≡ method_install → o ≢ success → EndsIn method o absent
  uninstalled : method ≡ method_uninstall → EndsIn method success absent
  not_uninstalled :
      {o : ExecutionOutcome} → method ≡ method_uninstall → o ≢ success → EndsIn method o ready
  ran :
      {o : ExecutionOutcome}
      → method ≢ method_install
      → method ≢ method_uninstall
      → EndsIn method o ready
