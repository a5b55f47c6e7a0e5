-- ===== src/Sync/Transport.antt =====
-- crates/sectiond/src/sync/transport.rs: `OpenDalTransport::execute`, as far as one path goes. The
-- parent directories that it creates, retries, limits and progress reports are not modelled.
use section.Base.{Option, none, some, List, [], ◌∷◌, String, Result, ok, err, ◌>>=◌, if◌then◌else◌}
use section.Sync.Records.{EntryKind, file, dir}
use section.Sync.Backend.{
  Bytes, LocalEntry, file_entry, dir_entry, special_entry, RemoteEntry, SyncError, not_found,
  io_error, is_dir_mode, or_else, Backend, remote_file_token,
}
use section.Sync.Coordinator.{
  PlannedOp, create_local_dir, create_remote_dir, pull_file, push_file, delete_local, delete_remote,
}

-- The two sides of a path.
pub record Sides : Type 0 where
  pub local : Option LocalEntry
  pub remote : Option RemoteEntry

pub record TransportOutcome : Type 0 where
  pub local_version : Option String
  pub remote_version : Option String

-- `TransportOutcome::default()`
abbrev pub no_outcome : TransportOutcome
no_outcome = record { local_version = none; remote_version = none }

module _ (b : Backend) where
  -- The token that a push reports: the writer's, or else that of a `stat`.
  unfoldable pub pushed_version : Bytes → Option String
  pushed_version bytes =
      or_else (remote_file_token (b.closed bytes)) (remote_file_token (b.written bytes))

  -- `fs::create_dir_all` fails over a file, and over a directory it changes nothing.
  unfoldable pub create_local : Option LocalEntry → Result SyncError (Option LocalEntry)
  create_local none = ok (some (dir_entry b.touched))
  create_local (some (dir_entry m)) = ok (some (dir_entry m))
  create_local (some _) = err io_error

  unfoldable pub create_remote : Option RemoteEntry → Result SyncError (Option RemoteEntry)
  create_remote none = ok (some (record { meta = b.created; body = [] }))
  create_remote (some e) = if is_dir_mode e.meta.mode then ok (some e) else b.create_over_file e

  -- `fs::File::create` over a directory fails.
  unfoldable pub write_local : Bytes → Option LocalEntry → Result SyncError (Option LocalEntry)
  write_local bytes (some (dir_entry m)) = err io_error
  write_local bytes _ = ok (some (file_entry bytes b.touched))

  unfoldable pub write_remote : Bytes → Option RemoteEntry → Result SyncError (Option RemoteEntry)
  write_remote bytes none = ok (some (record { meta = b.written bytes; body = bytes }))
  write_remote bytes (some e) =
      if is_dir_mode e.meta.mode
      then b.write_over_dir bytes e
      else ok (some (record { meta = b.written bytes; body = bytes }))

  -- `delete_local_entry`: nothing to do for an absent path, and an error for a directory as a file or
  -- for another entry as a directory. A directory stands for itself and all that is below it, which
  -- `remove_dir_all` deletes with it.
  unfoldable pub delete_local_entry :
      EntryKind → Option LocalEntry → Result SyncError (Option LocalEntry)
  delete_local_entry kind none = ok none
  delete_local_entry dir (some (dir_entry m)) = ok none
  delete_local_entry file (some (file_entry bytes m)) = ok none
  delete_local_entry file (some special_entry) = ok none
  delete_local_entry kind (some _) = err io_error

  -- `delete_remote_entry`; here too a directory goes with all that is below it, by `remove_all`.
  unfoldable pub delete_remote_entry : EntryKind → Option RemoteEntry → Option RemoteEntry
  delete_remote_entry kind none = none
  delete_remote_entry dir (some e) = if is_dir_mode e.meta.mode then none else b.delete_other dir e
  delete_remote_entry file (some e) =
      if is_dir_mode e.meta.mode then b.delete_other file e else none

  -- One arm of the `match`.
  unfoldable pub perform :
      PlannedOp → Sides → TransportOutcome → Result SyncError (Sides × TransportOutcome)
  unfolding create_local create_remote write_local write_remote delete_local_entry
      delete_remote_entry
  perform (create_local_dir path) s out = do
    l ← create_local s.local
    ok (record s { local = l }, out)
  perform (create_remote_dir path) s out = do
    r ← create_remote s.remote
    ok (record s { remote = r }, out)
  perform (pull_file path) s out = elim s.remote [
    | none ↦ err not_found
    | some e ↦ do
      l ← write_local e.body s.local
      ok (record s { local = l }, record out { local_version = some (b.hash e.body) })
  ]
  perform (push_file path) s out = elim s.local [
    | some (file_entry bytes m) ↦ do
      r ← write_remote bytes s.remote
      ok (record s { remote = r }, record out { remote_version = pushed_version bytes })
    | _ ↦ err not_found
  ]
  perform (delete_local path kind) s out = do
    l ← delete_local_entry kind s.local
    ok (record s { local = l }, out)
  perform (delete_remote path kind) s out =
      ok (record s { remote = delete_remote_entry kind s.remote }, out)

  -- The loop over `plan.ops`.
  unfoldable pub execute :
      List PlannedOp → Sides → TransportOutcome → Result SyncError (Sides × TransportOutcome)
  execute [] s out = ok (s, out)
  execute (op ∷ ops) s out = elim (perform op s out) [
    | err x ↦ err x
    | ok (s', out') ↦ execute ops s' out'
  ]
