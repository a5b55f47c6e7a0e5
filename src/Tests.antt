-- ===== src/Tests.antt =====
-- The theorems at concrete inputs, and runs of the definitions.
pub mod Sync
pub mod Conflicts
pub mod Access
pub mod Caches
pub mod Inodes
pub mod Chunked
pub mod Locks
pub mod Store
pub mod Service
pub mod Resolve
pub mod Metadata
pub mod Data
