-- ===== src/Runtime.antt =====
-- internal/app/repositories/runtime: the aggregate of one arrow's runtime and its commands.
pub mod Commands
pub mod Command
pub mod History
pub mod Recovery
mod Examples
