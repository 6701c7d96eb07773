-- ===== src/Deptree.antt =====
-- internal/engine/deptree: the order in which an arrow's dependencies are installed.
pub mod Traversal
pub mod Graph
pub mod Sound
pub mod Ends
mod Examples
