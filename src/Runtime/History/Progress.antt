-- ===== src/Runtime/History/Progress.antt =====
-- What a report about one step changes.
use quiver_core.Prelude.{
  ℕ, ℤ, pos, negsuc, sym, Str, Option, some, ◌≡◌, ◌≢◌, refl, arith, ◌<◌, get_elem?, length,
  length-modify, get_elem?-modify, map_option, if◌then◌else◌, ◌==◌, modify,
}
use quiver_core.Domain.Execution.{Namespace, StepStatus, StepProgress, Execution, ArrowRuntime}
use quiver_core.Runtime.Commands
use quiver_core.Runtime.Command.{Command, emit}
use quiver_core.Runtime.History.{Accepts, accept}

-- A step with another status, error and note.
abbrev pub reported : StepStatus → Option Str → Option Str → StepProgress → StepProgress
reported status error remark p = record {
  index = p.index;
  status = status;
  error = error;
  note = remark;
  step = p.step;
}

-- `y` is `x` but for the report on step `i`: that step has the reported status, error and note, and
-- its index and step; every other step, and every other field, is as it was.
pub record IsReported (i : ℕ) (status : StepStatus) (error remark : Option Str) (x y : Execution)
    : Type 0 where
  pub id_kept : y.id ≡ x.id
  pub method_kept : y.method ≡ x.method
  pub variables_kept : y.variables ≡ x.variables
  pub pid_kept : y.pid ≡ x.pid
  pub work_dir_kept : y.work_dir ≡ x.work_dir
  pub surface_kept : y.surface ≡ x.surface
  pub length_kept : length y.steps ≡ length x.steps
  pub steps_reported :
      (j : ℕ)
      → get_elem? y.steps j ≡ (
          if i == j
          then map_option (reported status error remark) (get_elem? x.steps j)
          else get_elem? x.steps j)

module _ (status : StepStatus) (error remark : Option Str) (x : Execution) where
  abbrev reported_run : ℕ → Execution
  reported_run i = record x {
    steps = modify x.steps i (Commands.AdvanceStep.report status error remark);
  }

  report-IsReported : (i : ℕ) → IsReported i status error remark x (reported_run i)
  unfolding Commands.AdvanceStep.report
  report-IsReported i = record {
    id_kept = refl;
    method_kept = refl;
    variables_kept = refl;
    pid_kept = refl;
    work_dir_kept = refl;
    surface_kept = refl;
    length_kept = length-modify x.steps i _;
    steps_reported = λ j. get_elem?-modify x.steps i j _;
  }

  advance-eq :
      (ns : Namespace) (r : ArrowRuntime) (id : Str) (i : ℕ) {next : ArrowRuntime}
      → r.execution ≡ some x
      → emit ns (Command.advance_step id (pos i) status error remark) (some r) ≡ some next
      → (i < length x.steps) × (record r { execution = some (reported_run i) } ≡ next)
  unfolding emit Commands.AdvanceStep.emit
  advance-eq ns r id i hx e = ground arith

  advance-negative :
      (ns : Namespace) (r : ArrowRuntime) (id : Str) (i : ℕ) {next : ArrowRuntime}
      → r.execution ≡ some x
      → emit ns (Command.advance_step id (negsuc i) status error remark) (some r) ≢ some next
  unfolding emit Commands.AdvanceStep.emit
  advance-negative ns r id i hx e = ground arith

-- An accepted report on a step names a position of the recorded run, and changes that step's
-- status, error and note alone: the other steps, the run's other fields, the state, the last return
-- and the pending sync stay.
pub advance-IsReported :
    {ns : Namespace} {r next : ArrowRuntime} {id : Str} {i : ℤ} {status : StepStatus}
    {error remark : Option Str} {x : Execution}
    → r.execution ≡ some x
    → Accepts ns (some r) (Command.advance_step id i status error remark) next
    → (k : ℕ) × (i ≡ pos k)
      × (k < length x.steps)
      × (y : Execution) × IsReported k status error remark x y
      × (next ≡ record r { execution = some y })
advance-IsReported {ns} {r} {id = id} {i = pos k} {status} {error} {remark} {x} hx (accept h e) =
    let (bound, same) = advance-eq status error remark x ns r id k hx e in
    (
      k,
      refl,
      bound,
      reported_run status error remark x k,
      report-IsReported status error remark x k,
      sym same,
    )
advance-IsReported {ns} {r} {id = id} {i = negsuc k} {status} {error} {remark} {x} hx (accept h e) =
    absurd (advance-negative status error remark x ns r id k hx e)
