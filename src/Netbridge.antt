-- ===== src/Netbridge.antt =====
-- internal/engine/netbridge: which port an owner gets, and how it gives it back.
pub mod Port
pub mod Search
pub mod Service
mod Examples
