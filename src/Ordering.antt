-- ===== src/Ordering.antt =====
-- Load ordering: src-tauri/src/ordering.rs and the modules under ordering/.
pub mod Graph
pub mod Shared
pub mod Registry
pub mod Locals
