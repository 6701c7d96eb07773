-- ===== src/Runtime/Commands.antt =====
-- internal/app/repositories/runtime/internal/commands: a module for each command of the runtime.
pub mod AdvanceStep
pub mod BeginExecution
pub mod BeginInstall
pub mod BeginStop
pub mod BeginUninstall
pub mod BeginUpdate
pub mod ClearSurface
pub mod ClearVersionOutdated
pub mod EndExecution
pub mod MarkOutdated
pub mod MarkVersionOutdated
pub mod RecordDetached
pub mod RecordPid
pub mod RecordPreinstalled
pub mod RecoverInterrupted
pub mod RestartExecution
pub mod SetSurface
pub mod Shared
