-- ===== src/Domain.antt =====
-- internal/domain: the types that the other parts share.
pub mod ArrowState
pub mod Step
pub mod Execution
pub mod Identity
pub mod Requirement
pub mod Selector
pub mod Portable
mod Examples
