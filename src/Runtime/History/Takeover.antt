-- ===== src/Runtime/History/Takeover.antt =====
-- internal/app/repositories/runtime/internal: what can reach an arrow while a run of it is under way.
-- The comments at drainExecution in hooks.go, in commands/current_execution.go and in
-- internal/domain/runtime/execution.go let an update take a run over, and docs/spec/entities.md lets
-- a method run in place; what stands here is about the guards of the commands.
use quiver_core.Prelude.{
  Str, str_eq_iff, is_empty, Bool, true, false, Option, none, some, ◌≡◌, ◌≢◌, arith, ◌⊎◌,
}
use quiver_core.Domain.ArrowState.{state_eq}
use quiver_core.Domain.Execution.{Namespace, Execution, ArrowRuntime}
use quiver_core.Runtime.Commands
use quiver_core.Runtime.Commands.Shared.{superseded, require_current_execution}
use quiver_core.Runtime.Command.{Command, validate}
use quiver_core.Runtime.History.{Accepts, accept, Reachable}
use quiver_core.Runtime.History.Invariant.{IsValid}
use quiver_core.Runtime.History.Invariant.Kept.{Reachable-IsValid}

-- The run that a command says it reports on.
abbrev pub reported_run : Command → Option Str
reported_run (Command.advance_step id i status error remark) = some id
reported_run (Command.record_pid id pid) = some id
reported_run (Command.set_surface id surface) = some id
reported_run (Command.clear_surface id) = some id
reported_run (Command.restart_execution id steps) = some id
reported_run (Command.end_execution id outcome) = some id
reported_run _ = none

-- The commands that cut a run off: a stop, and what recovery sends at boot.
abbrev pub interrupts : Command → Bool
interrupts (Command.begin_stop c) = true
interrupts Command.record_detached = true
interrupts Command.recover_interrupted = true
interrupts _ = false

module _ {ns : Namespace} {r : ArrowRuntime} (v : IsValid ns r) (named : is_empty ns ≡ false)
    {x : Execution} (running : r.execution ≡ some x) where
  require-superseded :
      (id : Str) → id ≢ x.id → require_current_execution (some r) id ≡ some superseded
  unfolding require_current_execution
  require-superseded id stale = ground (arith, str_eq_iff x.id id)

  require-id : (id : Str) → require_current_execution (some r) id ≡ none → id ≡ x.id
  unfolding require_current_execution
  require-id id h = ground (arith, str_eq_iff x.id id)

  validate-superseded :
      (c : Command) {id : Str}
      → reported_run c ≡ some id
      → id ≢ x.id
      → validate c (some r) ≡ some superseded
  unfolding validate
  validate-superseded (Command.begin_install c) e stale = cc
  validate-superseded _ {id} e stale =
      unfold Commands.AdvanceStep.validate Commands.RecordPid.validate Commands.SetSurface.validate
        Commands.ClearSurface.validate Commands.RestartExecution.validate
        Commands.EndExecution.validate in
      ground (arith, require-superseded id stale)

  validated-run :
      (c : Command)
      → validate c (some r) ≡ none
      → (reported_run c ≡ some x.id) ⊎ (interrupts c ≡ true)
  unfolding validate
  validated-run (Command.advance_step id i status error remark) h =
      unfold Commands.AdvanceStep.validate in ground (arith, require-id id)
  validated-run (Command.record_pid id pid) h =
      unfold Commands.RecordPid.validate in ground (arith, require-id id)
  validated-run (Command.set_surface id surface) h =
      unfold Commands.SetSurface.validate in ground (arith, require-id id)
  validated-run (Command.clear_surface id) h =
      unfold Commands.ClearSurface.validate in ground (arith, require-id id)
  validated-run (Command.restart_execution id steps) h =
      unfold Commands.RestartExecution.validate in ground (arith, require-id id)
  validated-run (Command.end_execution id outcome) h =
      unfold Commands.EndExecution.validate in ground (arith, require-id id)
  validated-run c h =
      unfold Commands.BeginInstall.validate Commands.BeginUninstall.validate
        Commands.BeginUpdate.validate Commands.BeginStop.validate Commands.BeginExecution.validate
        Commands.MarkOutdated.validate Commands.MarkVersionOutdated.validate
        Commands.ClearVersionOutdated.validate Commands.RecordDetached.validate
        Commands.RecordPreinstalled.validate Commands.RecoverInterrupted.validate state_eq in
      ground arith

-- While a run is recorded in a runtime that earlier commands made, under a namespace that is not
-- empty, the only commands accepted are reports that name that very run, a stop, and the two that
-- recovery sends: no install, update, uninstall or other run can begin.
pub Accepts-run :
    {ns : Namespace} {r next : ArrowRuntime} {c : Command} {x : Execution}
    → is_empty ns ≡ false
    → Reachable ns r
    → r.execution ≡ some x
    → Accepts ns (some r) c next
    → (reported_run c ≡ some x.id) ⊎ (interrupts c ≡ true)
Accepts-run {ns} {c = c} named reach running (accept h e) =
    validated-run (Reachable-IsValid ns named reach) named running c h

-- A report that names another run than the recorded one is refused as superseded, whichever
-- report it is and whatever it carries.
pub stale-superseded :
    {ns : Namespace} {r : ArrowRuntime} {x : Execution} (c : Command) (id : Str)
    → is_empty ns ≡ false
    → Reachable ns r
    → r.execution ≡ some x
    → reported_run c ≡ some id
    → id ≢ x.id
    → validate c (some r) ≡ some superseded
stale-superseded {ns} c id named reach running e stale =
    validate-superseded (Reachable-IsValid ns named reach) named running c e stale
