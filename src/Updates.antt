-- ===== src/Updates.antt =====
-- Application updates: src-tauri/src/updates.rs.
pub mod Schedule
pub mod Select
