-- ===== src/AgentFs.antt =====
-- crates/sectiond/src/agentfs.rs: the records, rules and locks of a shared filesystem.
pub mod Scope
pub mod Access
pub mod SourcePath
pub mod HeadLock
pub mod Records
pub mod Metadata
pub mod NewRecords
