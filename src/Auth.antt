-- ===== src/Auth.antt =====
-- internal/domain/auth, its repositories and use case, and internal/api/middleware: how a device pairs.
pub mod Code
pub mod Device
pub mod Redeem
pub mod Limiter
mod Examples
