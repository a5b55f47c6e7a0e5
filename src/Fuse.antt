-- ===== src/Fuse.antt =====
-- crates/section-fuse: the table of inodes behind the mounted filesystem.
pub mod InodeTable
