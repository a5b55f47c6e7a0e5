-- ===== src/Sync.antt =====
-- crates/sectiond/src/sync.rs and its modules: how a source and a local directory are reconciled.
pub mod Records
pub mod Coordinator
pub mod Backend
pub mod Collector
pub mod Transport
pub mod Pass
pub mod Resolve
pub mod Delta
