-- ===== src/Vault.antt =====
-- internal/engine/vault: how an arrow's identity becomes a name on disk, and back.
pub mod Bytes
pub mod Escape
pub mod Dirs
mod Examples
