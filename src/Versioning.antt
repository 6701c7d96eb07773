-- ===== src/Versioning.antt =====
-- internal/engine/manifold/versioning and resolver/resolvers: which ref of a repository a row follows.
pub mod Pattern
pub mod Number
pub mod Classify
pub mod Ranking
pub mod Channels
pub mod Selector
pub mod Snapshot
pub mod Drift
pub mod Admit
mod Examples
