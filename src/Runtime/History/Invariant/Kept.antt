-- ===== src/Runtime/History/Invariant/Kept.antt =====
-- Every accepted command keeps the invariant.
use quiver_core.Prelude.{
  Str, is_empty, false, Option, none, some, ◌≡◌, arith, ℤ, pos, negsuc, subst, Option-cases, inl,
  inr,
}
use quiver_core.Domain.ArrowState.{state_eq}
use quiver_core.Domain.Execution.{Namespace, StepStatus, Execution, ArrowRuntime}
use quiver_core.Runtime.Commands
use quiver_core.Runtime.Command.{Command, validate, emit}
use quiver_core.Runtime.History.{Accepts, accept, Reachable, first, then}
use quiver_core.Runtime.History.Invariant.{
  IsValid, IsExecuting, initial_steps-IsNumbered, modify-IsNumbered,
}

-- The invariant of an aggregate that may not exist.
abbrev pub IsValidIfAny : Namespace → Option ArrowRuntime → Type 0
IsValidIfAny ns none = Unit
IsValidIfAny ns (some r) = IsValid ns r

module _ (status : StepStatus) (error remark : Option Str) {ns : Namespace} where
  advance_at-IsValid :
      (i : ℤ) {r next : ArrowRuntime} (x : Execution)
      → r.execution ≡ some x
      → Commands.AdvanceStep.advance_at i status error remark r x ≡ some next
      → IsValid ns r
      → IsValid ns next
  unfolding Commands.AdvanceStep.advance_at
  advance_at-IsValid (negsuc i) x hx e v = cc
  advance_at-IsValid (pos i) {r} x hx e v =
      let (busy, numbered, method) = subst (IsExecuting r.state) hx v.executing in
      ground (arith, modify-IsNumbered status error remark 0 i x.steps numbered)

module _ (ns : Namespace) (named : is_empty ns ≡ false) where
  emit-IsValid :
      (c : Command) (current : Option ArrowRuntime) {next : ArrowRuntime}
      → IsValidIfAny ns current
      → validate c current ≡ none
      → emit ns c current ≡ some next
      → IsValid ns next
  unfolding validate emit
  emit-IsValid (Command.begin_install c) current v h e =
      unfold Commands.BeginInstall.emit in ground (arith, initial_steps-IsNumbered c.steps)
  emit-IsValid (Command.begin_uninstall c) current v h e =
      unfold Commands.BeginUninstall.emit in ground (arith, initial_steps-IsNumbered c.steps)
  emit-IsValid (Command.begin_update c) current v h e =
      unfold Commands.BeginUpdate.emit in ground (arith, initial_steps-IsNumbered c.steps)
  emit-IsValid (Command.begin_stop c) current v h e =
      unfold Commands.BeginStop.emit in ground (arith, initial_steps-IsNumbered c.steps)
  emit-IsValid (Command.begin_execution method available_in c) current v h e =
      unfold Commands.BeginExecution.emit in ground (arith, initial_steps-IsNumbered c.steps)
  emit-IsValid (Command.advance_step id i status error remark) none v h e =
      unfold Commands.AdvanceStep.emit in cc
  emit-IsValid (Command.advance_step id i status error remark) (some r) v h e =
      unfold Commands.AdvanceStep.emit in
      elim (Option-cases r.execution) [
        | inl hx ↦ ground arith
        | inr (x, hx) ↦
            advance_at-IsValid status error remark i x hx (rw (hx, Commands.AdvanceStep.emit) at e)
              v
      ]
  emit-IsValid (Command.record_pid id pid) (some r) v h e =
      unfold Commands.RecordPid.emit in ground arith
  emit-IsValid (Command.set_surface id surface) (some r) v h e =
      unfold Commands.SetSurface.emit in ground arith
  emit-IsValid (Command.clear_surface id) (some r) v h e =
      unfold Commands.ClearSurface.emit in ground arith
  emit-IsValid (Command.restart_execution id steps) (some r) v h e =
      unfold Commands.RestartExecution.emit in ground (arith, initial_steps-IsNumbered steps)
  emit-IsValid (Command.end_execution id outcome) (some r) v h e =
      unfold Commands.EndExecution.emit in ground arith
  emit-IsValid (Command.mark_outdated sync) current v h e =
      unfold Commands.MarkOutdated.emit in ground arith
  emit-IsValid Command.mark_version_outdated (some r) v h e =
      unfold Commands.MarkVersionOutdated.emit in ground arith
  emit-IsValid Command.clear_version_outdated current v h e =
      unfold Commands.ClearVersionOutdated.emit in ground arith
  emit-IsValid Command.record_detached (some r) v h e =
      unfold Commands.RecordDetached.emit in ground arith
  emit-IsValid Command.record_preinstalled (some r) v h e =
      unfold Commands.RecordPreinstalled.emit Commands.RecordPreinstalled.validate state_eq in
      ground arith
  emit-IsValid Command.recover_interrupted (some r) v h e =
      unfold Commands.RecoverInterrupted.emit in ground arith
  emit-IsValid _ none v h e =
      unfold Commands.RecordPid.emit Commands.SetSurface.emit Commands.ClearSurface.emit
        Commands.RestartExecution.emit Commands.EndExecution.emit Commands.MarkVersionOutdated.emit
        Commands.RecordDetached.emit Commands.RecordPreinstalled.emit
        Commands.RecoverInterrupted.emit in
      ground arith

  Accepts-IsValid :
      {current : Option ArrowRuntime} {c : Command} {next : ArrowRuntime}
      → IsValidIfAny ns current
      → Accepts ns current c next
      → IsValid ns next
  Accepts-IsValid v (accept {current = current} {c = c} h e) = emit-IsValid c current v h e

  pub Reachable-IsValid : {r : ArrowRuntime} → Reachable ns r → IsValid ns r
  Reachable-IsValid (first a) = Accepts-IsValid tt a
  Reachable-IsValid (then h a) = Accepts-IsValid (Reachable-IsValid h) a
