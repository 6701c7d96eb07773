-- ===== src/Runtime/History/Lifecycle.antt =====
-- The changes of state that the commands make.
use quiver_core.Prelude.{true, none, ◌≡◌, arith, ◌⊎◌, List, [], ◌∷◌}
use quiver_core.Domain.ArrowState.{
  ArrowState, absent, installing, updating, ready, running, stopping, detached, uninstalling,
  outdated, state_eq,
}
use quiver_core.Domain.Execution.{ArrowRuntime}
use quiver_core.Ruleset.MethodStates.{check_method_available_in}
use quiver_core.Runtime.Commands
use quiver_core.Runtime.Command.{Command}

-- What may follow a state, beside itself: the edges of the commands. The table of arrow.go and the
-- diagram of docs/spec/domain.md lack four of them (absent to installing, running to ready, running to
-- absent, outdated to updating) and have five others (ready to installing, stopping to draining,
-- draining to ready, detached to ready, detached to running).
infix 40 ◌⟶◌
pub data ◌⟶◌ : ArrowState → ArrowState → Type 0 where
  install : absent ⟶ installing
  adopt : absent ⟶ ready
  installed : installing ⟶ ready
  not_installed : installing ⟶ absent
  start : ready ⟶ running
  start_outdated : outdated ⟶ running
  finish : running ⟶ ready
  stop : running ⟶ stopping
  stop_detached : detached ⟶ stopping
  detach : running ⟶ detached
  stopped : stopping ⟶ ready
  update : ready ⟶ updating
  update_outdated : outdated ⟶ updating
  updated : updating ⟶ ready
  update_lost : updating ⟶ absent
  uninstall : ready ⟶ uninstalling
  uninstall_outdated : outdated ⟶ uninstalling
  not_uninstalled : uninstalling ⟶ ready
  uninstalled : uninstalling ⟶ absent
  outdate : ready ⟶ outdated
  refresh : outdated ⟶ ready
  -- A run that `BeginExecution` began may carry the name `_install` or `_uninstall`.
  leave : running ⟶ absent

ruleset edges = (
  install, adopt, installed, not_installed, start, start_outdated, finish, stop, stop_detached,
  detach, stopped, update, update_outdated, updated, update_lost, uninstall, uninstall_outdated,
  not_uninstalled, uninstalled, outdate, refresh, leave,
)

-- The rules on manifests hold of the method that a command starts.
abbrev pub IsAdmitted : Command → Type 0
IsAdmitted (Command.begin_execution method available_in c) =
    check_method_available_in available_in ≡ []
IsAdmitted _ = Unit

-- A method that the rules admit starts from ready, running or an outdated arrow with no sync.
available-state :
    (states : List ArrowState) (r : ArrowRuntime)
    → check_method_available_in states ≡ []
    → Commands.BeginExecution.available states r ≡ true
    → (r.state ≡ ready) ⊎ (r.state ≡ running) ⊎ ((r.state ≡ outdated) × (r.pending_dep_sync ≡ none))
unfolding check_method_available_in Commands.BeginExecution.available state_eq
available-state [] r h a = cc
available-state (s ∷ states) r h a = ground (arith, available-state states r)

pub startable-state :
    (states : List ArrowState) (r : ArrowRuntime)
    → check_method_available_in states ≡ []
    → Commands.BeginExecution.startable states r ≡ true
    → (r.state ≡ ready) ⊎ (r.state ≡ running) ⊎ ((r.state ≡ outdated) × (r.pending_dep_sync ≡ none))
startable-state [] r h a = unfold Commands.BeginExecution.startable state_eq in ground arith
startable-state (s ∷ states) r h a =
    available-state (s ∷ states) r h (unfold Commands.BeginExecution.startable in a)
