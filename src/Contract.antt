-- ===== src/Contract.antt =====
-- src-tauri/src/runtime_contract.rs: the documents that the manager and the game runtime exchange.
pub mod Document
pub mod Strict
pub mod Unique
pub mod Content
pub mod Activation
pub mod Report
