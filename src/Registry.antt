-- ===== src/Registry.antt =====
-- The registry: src-tauri/src/registry.rs and the modules under registry/.
pub mod Identity
pub mod Version
pub mod Installation
pub mod Wire
pub mod Valid
pub mod Query
pub mod Listing
pub mod Files
pub mod Readers
pub mod Dependency
