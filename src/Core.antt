-- ===== src/Core.antt =====
-- crates/section-core: the caches, the router and the permission rules.
pub mod Paths
pub mod ContentCache
pub mod MetadataCache
pub mod Router
pub mod Permission
