-- ===== src/Lib.antt =====
-- Section mounts storage backends as sources, keeps a local copy of a source in step with the
-- backend, and shares filesystems between agents. This library models the parts of it that decide:
-- what a sync pass does to a path, what a cache keeps, which inode a name has, and who may touch
-- which path of a shared filesystem.
--
-- The parts, the files that model them, and the code (paths from the repository's root):
-- - Sync/Coordinator: `plan_path` and `plan` of crates/sectiond/src/sync/coordinator.rs, all branches.
--   Sync/Records has the records and events that the planner builds (crates/sectiond/src/sync.rs).
-- - Sync/Backend: how the two sides of a path are observed (`inspect_local_entry`,
--   `inspect_remote_entry` and below). The file system, the operator of the storage library and
--   SHA-256 are not part of the repository: they are the parameter `Backend`, and `IsLawful` says what
--   is relied on: a written file is a file, a created directory a directory, a token that closing the
--   writer or listing reports is the one that `stat` reports, and listing reports the kind. What comes
--   of writing, creating or deleting where an entry of the other kind stands is the backend's own, and
--   no law is assumed of it. A backend with an entry at both `path` and `path/` is left out.
-- - Sync/Collector: what the snapshot collector observes at one path (crates/sectiond/src/sync/collector.rs):
--   the hash of a file or its cached one, the token of the listing, the cached manifest, `stat` and
--   the body, or the inventory manifest. `IsCurrent` says when this is what is really there.
-- - Sync/Transport: the operations of a plan (crates/sectiond/src/sync/transport.rs), on the state of
--   one path. A directory stands for itself with all that is below it, so deleting it deletes that
--   too. Sync/Pass puts collector, planner and transport together for one path, as
--   `sync_source_with_options` does for each, when no operation on another path touches it; the
--   records that a scan writes back are not modelled.
-- - Sync/Delta: the rolling hash and the chunk signatures (crates/sectiond/src/sync/delta.rs). Words
--   of 32 bits wrap; the fuel of both loops over chunks is the number of bytes, and each turn takes a
--   byte at least.
-- - AgentFs/Scope, AgentFs/SourcePath, AgentFs/HeadLock, AgentFs/Access: path scopes, validation of
--   paths, the head lock, roles and grants (crates/sectiond/src/agentfs.rs) and the authorization of
--   the control service (crates/sectiond/src/control_service.rs). The grants table is a list of rows,
--   and the lock directory a list of files; a call on the lock runs by itself.
-- - AgentFs/Records, AgentFs/Metadata, AgentFs/NewRecords: the other records of agentfs.rs, what
--   `validate_metadata` checks of each, and how new ones are made. Times are natural numbers of
--   milliseconds, where 0 stands for all times that are refused, and the `data` of an event, which no
--   code here reads, is left out.
-- - Service: the store of the control service (crates/sectiond/src/control_service.rs) as its tables,
--   with Service/Agents, Service/Filesystems, Service/Grants, Service/Hooks and Service/Shares for its
--   operations, Service/Log for the event numbers and Service/Reached for the stores that they lead
--   to. A statement that meets an existing key fails, a transaction that fails leaves the tables as
--   they were, and a commit that begins succeeds. The clock, the random digits and SHA-256 are
--   arguments. Rows of grants stand in the order of their query; other queries sort.
-- - Sync/Resolve: `compare_path` and `resolve_path` (crates/sectiond/src/sync.rs), on the same two
--   sides of a path as the pass.
-- - Core: `ContentCache`, `MetadataCache`, `Router` and `Permission` (crates/section-core/src), with
--   the checks of crates/sectiond/src/permission.rs. The clock is an argument. A text is the list of
--   its code points, a map is an association list that is read by its keys, and the sizes in a cache
--   are of contents in memory, which are fewer than 2 ^ 64 bytes.
-- - DataPlane: the caches that sectiond keeps for each source (crates/sectiond/src/data_plane.rs). The
--   router it holds is left out, and a second is a number of units of the clock.
-- - Fuse/InodeTable: crates/section-fuse/src/inode.rs. Inode numbers are of 64 bits and wrap; the
--   invariant is about tables that have not used them up.
-- - Base holds what the parts share, Tests the theorems at concrete inputs.
--
-- A pass plans each path from what the stored record and the two sides say, runs the operations, and
-- stores a record from their outcome, which is what the next pass starts from. A path that an agent
-- names is validated, then authorized by a grant and matched against the scopes of that grant. A path
-- of the mounted filesystem is parsed by the router into a source and a path in it; the caches are
-- kept for each source by the latter.
--
-- A path in conflict is resolved in favour of one side and then goes through passes again. The control
-- service authorizes each of its operations by the grants that the operations before left; shares and
-- credentials are given out by the same grants.
--
-- Not modelled: the walk over the file system, the listing of a backend and the parsing of an inventory
-- manifest, the records that a scan writes back, the parallel execution of several paths and what their
-- operations do to each other (the deletion of a directory takes paths that have plans of their own),
-- retries and progress, SQL and HTTP, the migration of old databases, the requests
-- of the control plane, the command line, the callbacks of the FUSE library, and encryption. Calls on
-- the head lock that interleave are not modelled either; the transactions of the control service lock
-- the database, so they do not interleave.
mod Base
pub mod AgentFs
pub mod Sync
pub mod Core
pub mod Fuse
pub mod Service
pub mod DataPlane
pub mod Tests
