-- ===== src/Trust.antt =====
-- src-tauri/src/registry/trust.rs: the signed metadata of the registry.
pub mod Canonical
pub mod State
pub mod Signed
pub mod Verify
pub mod Keys
