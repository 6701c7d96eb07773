-- ===== src/Runtime/Examples.antt =====
-- Concrete histories of a runtime, and the theorems at them.
use quiver_core.Prelude.{
  ℕ, ◌<◌, pos, Str, codes, is_some, str_eq, ne_of_str_eq, true, none, some, [], ◌∷◌, ◌≡◌, refl, ◌⊎◌,
}
use quiver_core.Domain.ArrowState.{ArrowState, ready, state_eq, method_install}
use quiver_core.Domain.Step.{Step}
use quiver_core.Domain.Execution.{
  Namespace, StepStatus, StepProgress, Execution, success, DepSyncInfo, ArrowRuntime,
}
use quiver_core.Runtime.Commands
use quiver_core.Runtime.Commands.Shared.{
  superseded, BeginArgs, initial_steps, initial_steps_from, require_current_execution,
}
use quiver_core.Runtime.Command.{Command, validate, emit}
use quiver_core.Runtime.Command.Safety.{validated_emits}
use quiver_core.Runtime.History.{Accepts, accept, Reachable, first, then}
use quiver_core.Runtime.History.Takeover.{reported_run, interrupts, Accepts-run, stale-superseded}
use quiver_core.Runtime.History.Returns.{Accepts-last_return}
use quiver_core.Runtime.History.Sync.{consumes_sync, Accepts-sync}
use quiver_core.Runtime.History.Progress.{IsReported, advance-IsReported}

abbrev ns : Namespace
ns = codes "h/u/r"

abbrev dependencies_step : Step
dependencies_step =
    Step.dependencies
      (record { step_type = codes "dependencies"; exit_on_failure = true; title = codes "deps" })

abbrev begin_args : BeginArgs
begin_args = record {
  execution_id = codes "e1";
  steps = dependencies_step ∷ [];
  variables = [];
  work_dir = codes "/w";
}

abbrev deps_progress : StepStatus → StepProgress
deps_progress status = record {
  index = 0;
  status = status;
  error = none;
  note = none;
  step = some dependencies_step;
}

abbrev install_run : StepStatus → Execution
install_run status = record {
  id = codes "e1";
  method = method_install;
  steps = deps_progress status ∷ [];
  variables = [];
  pid = pos 0;
  work_dir = codes "/w";
  surface = none;
}

abbrev installing : StepStatus → ArrowRuntime
installing status = record {
  ref = ns;
  state = ArrowState.installing;
  execution = some (install_run status);
  last_return = none;
  pending_dep_sync = none;
}

abbrev install : Command
install = Command.begin_install begin_args

abbrev complete : Command
complete = Command.advance_step (codes "e1") (pos 0) StepStatus.completed none none

abbrev end : Str → Command
end id = Command.end_execution id success

abbrev installed : ArrowRuntime
installed = record {
  ref = ns;
  state = ready;
  execution = none;
  last_return = some (record {
    execution_id = codes "e1";
    method = method_install;
    outcome = success;
    steps = deps_progress StepStatus.completed ∷ [];
    variables = [];
  });
  pending_dep_sync = none;
}

abbrev sync : DepSyncInfo
sync = record { added_deps = codes "h/u/d" ∷ []; removed_deps = [] }

abbrev waiting : ArrowRuntime
waiting = record installed { state = ArrowState.outdated; pending_dep_sync = some sync }

begins : Accepts ns none install (installing StepStatus.pending)
unfolding validate emit Commands.BeginInstall.validate Commands.BeginInstall.emit initial_steps
    initial_steps_from
begins = accept refl refl

completes :
    Accepts ns (some (installing StepStatus.pending)) complete (installing StepStatus.completed)
unfolding validate emit Commands.AdvanceStep.validate Commands.AdvanceStep.emit str_eq
completes = accept refl refl

ends : Accepts ns (some (installing StepStatus.completed)) (end (codes "e1")) installed
unfolding validate emit Commands.EndExecution.validate Commands.EndExecution.emit str_eq
    require_current_execution
ends = accept refl refl

goes_outdated : Accepts ns (some installed) (Command.mark_outdated sync) waiting
unfolding validate emit Commands.MarkOutdated.validate Commands.MarkOutdated.emit state_eq
goes_outdated = accept refl refl

checks_version : Accepts ns (some waiting) Command.mark_version_outdated waiting
unfolding validate emit Commands.MarkVersionOutdated.validate Commands.MarkVersionOutdated.emit
    state_eq
checks_version = accept refl refl

reach_installing : Reachable ns (installing StepStatus.completed)
reach_installing = then (first begins) completes

reach_waiting : Reachable ns waiting
reach_waiting = then (then reach_installing ends) goes_outdated

validated_emits_example : is_some (emit ns complete (some (installing StepStatus.pending))) ≡ true
unfolding validate Commands.AdvanceStep.validate str_eq
validated_emits_example = validated_emits ns complete (some (installing StepStatus.pending)) refl

Accepts-run_example :
    (reported_run (end (codes "e1")) ≡ some (codes "e1")) ⊎ (interrupts (end (codes "e1")) ≡ true)
Accepts-run_example = Accepts-run refl reach_installing refl ends

stale-superseded_example :
    validate (end (codes "e0")) (some (installing StepStatus.completed)) ≡ some superseded
unfolding str_eq
stale-superseded_example =
    stale-superseded (end (codes "e0")) (codes "e0") refl reach_installing refl refl
      (ne_of_str_eq (codes "e0") (codes "e1") refl)

Accepts-last_return_example : waiting.last_return ≡ installed.last_return
Accepts-last_return_example = Accepts-last_return refl goes_outdated

Accepts-sync_example :
    (consumes_sync Command.mark_version_outdated ≡ true) ⊎ (waiting.pending_dep_sync ≡ some sync)
Accepts-sync_example = Accepts-sync refl reach_waiting tt refl checks_version

advance-IsReported_example :
    (k : ℕ) × (pos 0 ≡ pos k)
    × (k < 1)
    × (y : Execution) × IsReported k StepStatus.completed none none
        (install_run StepStatus.pending)
        y
    × (installing StepStatus.completed
        ≡ record (installing StepStatus.pending) { execution = some y })
advance-IsReported_example = advance-IsReported refl completes
