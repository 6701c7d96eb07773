-- ===== src/Logring.antt =====
-- internal/core/logring: the ring of the daemon's latest log records.
pub mod Subscriber
pub mod Ring
pub mod Delivery
mod Examples
