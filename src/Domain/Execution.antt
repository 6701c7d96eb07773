-- ===== src/Domain/Execution.antt =====
-- internal/domain/runtime: the runtime aggregate of one arrow and its parts.
use quiver_core.Prelude.{ℕ, ℤ, Str, Bool, Option, List, Dict}
use quiver_core.Domain.ArrowState.{ArrowState}
use quiver_core.Domain.Step.{Step}

-- `domain.Namespace`, a string.
abbrev pub Namespace : Type 0
Namespace = Str

pub data StepStatus : Type 0 where
  pending running completed failed : StepStatus

-- `Index` is only ever set to a slice index, so it is a natural number.
pub record StepProgress : Type 0 where
  pub index : ℕ
  pub status : StepStatus
  pub error : Option Str
  pub note : Option Str
  pub step : Option Step  -- an interface value, nil when a record of a run had none

pub data SurfaceMode : Type 0 where
  listen static : SurfaceMode

pub record Surface : Type 0 where
  pub title : Str
  pub mode : SurfaceMode
  pub path : Str
  pub dir : Str
  pub is_ready : Bool

pub data ExecutionOutcome : Type 0 where
  success failure cancelled : ExecutionOutcome

pub record Execution : Type 0 where
  pub id : Str
  pub method : Str
  pub steps : List StepProgress
  pub variables : Dict Str
  pub pid : ℤ
  pub work_dir : Str
  pub surface : Option Surface

pub record Return : Type 0 where
  pub execution_id : Str
  pub method : Str
  pub outcome : ExecutionOutcome
  pub steps : List StepProgress
  pub variables : Dict Str

pub record DepSyncInfo : Type 0 where
  pub added_deps : List Namespace
  pub removed_deps : List Namespace

pub record ArrowRuntime : Type 0 where
  pub ref : Namespace
  pub state : ArrowState
  pub execution : Option Execution
  pub last_return : Option Return
  pub pending_dep_sync : Option DepSyncInfo
