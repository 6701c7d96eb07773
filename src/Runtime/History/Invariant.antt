-- ===== src/Runtime/History/Invariant.antt =====
-- What holds of every runtime that commands can produce.
pub mod Kept
use quiver_core.Prelude.{
  ℕ, suc, Str, codes, str_eq, str_eq_iff, is_empty, is_some, Bool, true, false, Option, none, some,
  List, [], ◌∷◌, ◌≡◌, refl, arith, ℤ, pos, negsuc, modify,
}
use quiver_core.Domain.ArrowState.{
  ArrowState, absent, installing, updating, ready, running, stopping, draining, detached,
  uninstalling, removed, outdated, unknown, state_eq, state_eq_sound, can_transition_to,
  method_install, method_uninstall, method_update, method_stop,
}
use quiver_core.Domain.Step.{Step}
use quiver_core.Domain.Execution.{
  Namespace, StepProgress, StepStatus, Execution, Return, ArrowRuntime, DepSyncInfo,
  ExecutionOutcome,
}
use quiver_core.Runtime.Commands
use quiver_core.Runtime.Commands.Shared.{
  Err, validation, BeginArgs, initial_steps, initial_steps_from, new_execution,
  preserve_last_return,
}
use quiver_core.Runtime.Command.{Command, validate, emit}

-- The states in which a run is under way.
abbrev pub is_busy : ArrowState → Bool
is_busy installing = true
is_busy uninstalling = true
is_busy updating = true
is_busy running = true
is_busy stopping = true
is_busy draining = true
is_busy _ = false

-- The steps carry their own positions, from `i` on.
abbrev pub IsNumbered : ℕ → List StepProgress → Type 0
IsNumbered i [] = Unit
IsNumbered i (p ∷ ps) = (p.index ≡ i) × IsNumbered (suc i) ps

-- The lifecycle states name the method that runs in them; the other busy states do not.
abbrev pub RunsMethod : ArrowState → Str → Type 0
RunsMethod installing method = method ≡ method_install
RunsMethod uninstalling method = method ≡ method_uninstall
RunsMethod updating method = method ≡ method_update
RunsMethod stopping method = method ≡ method_stop
RunsMethod _ method = Unit

-- A run is recorded exactly in the busy states.
abbrev pub IsExecuting : ArrowState → Option Execution → Type 0
IsExecuting s none = is_busy s ≡ false
IsExecuting s (some x) = (is_busy s ≡ true) × IsNumbered 0 x.steps × RunsMethod s x.method

-- Only an outdated arrow waits for a dependency sync.
abbrev pub SyncIsOutdated : ArrowState → Option DepSyncInfo → Type 0
SyncIsOutdated s none = Unit
SyncIsOutdated s (some sync) = s ≡ outdated

-- The states that some command leads to.
abbrev pub is_produced : ArrowState → Bool
is_produced draining = false
is_produced removed = false
is_produced (unknown s) = false
is_produced _ = true

pub record IsValid (ns : Namespace) (r : ArrowRuntime) : Type 0 where
  pub named : r.ref ≡ ns
  pub produced : is_produced r.state ≡ true
  pub executing : IsExecuting r.state r.execution
  pub syncing : SyncIsOutdated r.state r.pending_dep_sync

initial_steps_from-IsNumbered :
    (i : ℕ) (steps : List Step) → IsNumbered i (initial_steps_from i steps)
unfolding initial_steps_from
initial_steps_from-IsNumbered i [] = tt
initial_steps_from-IsNumbered i (s ∷ steps) = (refl, initial_steps_from-IsNumbered (suc i) steps)

pub initial_steps-IsNumbered : (steps : List Step) → IsNumbered 0 (initial_steps steps)
unfolding initial_steps
initial_steps-IsNumbered steps = initial_steps_from-IsNumbered 0 steps

-- A report changes no index.
pub modify-IsNumbered :
    (status : StepStatus) (error remark : Option Str) (k i : ℕ) (ps : List StepProgress)
    → IsNumbered k ps
    → IsNumbered k (modify ps i (Commands.AdvanceStep.report status error remark))
unfolding Commands.AdvanceStep.report
modify-IsNumbered status error remark k i [] h = tt
modify-IsNumbered status error remark k ℕ.zero (p ∷ ps) h = h
modify-IsNumbered status error remark k (suc i) (p ∷ ps) h =
    (h.0, modify-IsNumbered status error remark (suc k) i ps h.1)
