-- ===== src/Sync/Collector.antt =====
-- What the snapshot collector of crates/sectiond/src/sync/collector.rs observes at one path, which is
-- neither in `.section` nor empty. A scan has the cached records of the path and what the inventory
-- manifest says of it. The walk, the listing, the parsing of the manifest and the counters are left
-- out, and a path stands for one entry of the backend.
pub mod Current
use section.Base.{
  ℕ, ◌≡◌, Bool, true, false, ◌&&◌, ◌||◌, Option, none, some, String, ℤ, length, Result, ok, err,
  ◌>>=◌, is_some, ltb, if◌then◌else◌, ◌==◌, string_eq, option_eq, nat_eq, int_eq,
}
use section.Sync.Records.{EntryKind, file, dir, ObservedEntry}
use section.Sync.Backend.{
  Bytes, LocalEntry, file_entry, dir_entry, special_entry, RemoteEntry, Metadata, SyncError,
  unsupported_local_entry, unsupported_entry_mode, not_found, Backend, or_else, remote_file_token,
  metadata_entry_kind, is_dir_mode,
}

-- A record of the cache of local scans or of the manifest of remote scans, without its path.
pub record ScanRecord : Type 0 where
  pub entry_kind : String
  pub version : Option String
  pub size : Option ℕ
  pub mtime_ms : Option ℤ

pub record InventoryManifestEntry : Type 0 where
  pub kind : String
  pub version : Option String
  pub etag : Option String
  pub size : Option ℕ
  pub mtime_ms : Option ℤ

-- `inventory` is `none` when there is no manifest or it could not be used, and otherwise what the
-- manifest has for the path.
pub record Scan : Type 0 where
  pub cached : Option ScanRecord
  pub manifest : Option ScanRecord
  pub inventory : Option (Option InventoryManifestEntry)

-- The guard of the first arm of the `match` on the cached record.
unfoldable pub cached_local_version : Option ScanRecord → Option ℕ → Option ℤ → Option String
cached_local_version none size mtime = none
cached_local_version (some r) size mtime =
    if r.entry_kind == "file"
      && (is_some r.version && (is_some mtime && (r.size == size && r.mtime_ms == mtime)))
    then r.version
    else none

unfoldable pub cached_manifest_version : Option ScanRecord → Option ℕ → Option ℤ → Option String
cached_manifest_version none size mtime = none
cached_manifest_version (some r) size mtime =
    if r.entry_kind == "file"
      && (is_some r.version
          && (is_some size && (is_some mtime && (r.size == size && r.mtime_ms == mtime))))
    then r.version
    else none

unfoldable pub remote_metadata_size : Metadata → Option ℕ
remote_metadata_size meta =
    if ltb 0 meta.content_length || is_some (remote_file_token meta)
    then some meta.content_length
    else none

unfoldable pub inventory_entry_kind : String → Result SyncError EntryKind
inventory_entry_kind raw =
    if raw == "file" then ok file else if raw == "dir" then ok dir else err unsupported_entry_mode

abbrev pub dir_observation : Option ℤ → ObservedEntry
dir_observation mtime = record { kind = dir; version = none; size = none; mtime_ms = mtime }

abbrev pub remote_file_observation : String → Option ℕ → Option ℤ → ObservedEntry
remote_file_observation version size mtime = record {
  kind = file;
  version = some version;
  size = size;
  mtime_ms = mtime;
}

-- The first version that there is.
abbrev pub version_or : Option String → ObservedEntry → Option ℕ → Option ℤ → ObservedEntry
version_or none e size mtime = e
version_or (some v) e size mtime = remote_file_observation v size mtime

module _ (b : Backend) where
  unfoldable pub observe_local_entry_with_cache :
      Option ScanRecord → LocalEntry → Result SyncError ObservedEntry
  unfolding cached_local_version
  observe_local_entry_with_cache cached (dir_entry mtime) = ok (dir_observation mtime)
  observe_local_entry_with_cache cached (file_entry bytes mtime) = ok (record {
    kind = file;
    version =
        or_else (cached_local_version cached (some (length bytes)) mtime) (some (b.hash bytes));
    size = some (length bytes);
    mtime_ms = mtime;
  })
  observe_local_entry_with_cache cached special_entry = err unsupported_local_entry

  -- What both remote observations do when no version is at hand: `stat`, and then the body.
  unfoldable pub stat_observation : Option ScanRecord → RemoteEntry → ObservedEntry
  unfolding remote_metadata_size cached_manifest_version
  stat_observation cached e =
      let size = remote_metadata_size e.meta in
      version_or (remote_file_token e.meta)
        (version_or (cached_manifest_version cached size e.meta.mtime_ms)
          (remote_file_observation (b.hash e.body) size e.meta.mtime_ms) size e.meta.mtime_ms)
        size e.meta.mtime_ms

  -- `b.listed e` is the metadata that listing reports.
  unfoldable pub observe_remote_entry_with_manifest :
      Option ScanRecord → RemoteEntry → Result SyncError ObservedEntry
  unfolding stat_observation remote_metadata_size cached_manifest_version
  observe_remote_entry_with_manifest cached e =
      let listed = b.listed e in
      let size = remote_metadata_size listed in
      elim (metadata_entry_kind listed) [
        | err x ↦ err x
        | ok dir ↦ ok (dir_observation listed.mtime_ms)
        | ok file ↦ ok (
            version_or (remote_file_token listed)
              (version_or (cached_manifest_version cached size listed.mtime_ms)
                (stat_observation cached e) size listed.mtime_ms)
              size listed.mtime_ms)
      ]

  -- The fallback of an entry without a version and without a usable record. A file of the manifest
  -- that the backend does not have, or has as a directory, cannot be read.
  unfoldable pub inventory_fallback :
      Option ScanRecord → Option RemoteEntry → Result SyncError ObservedEntry
  unfolding stat_observation
  inventory_fallback cached none = err not_found
  inventory_fallback cached (some e) =
      if is_dir_mode e.meta.mode then err not_found else ok (stat_observation cached e)

  unfoldable pub observe_remote_inventory_entry :
      Option ScanRecord
      → InventoryManifestEntry
      → Option RemoteEntry
      → Result SyncError ObservedEntry
  unfolding inventory_entry_kind cached_manifest_version inventory_fallback
  observe_remote_inventory_entry cached i remote = do
    kind ← inventory_entry_kind i.kind
    let version =
        or_else (or_else i.version i.etag) (cached_manifest_version cached i.size i.mtime_ms)
    elim kind [
      | dir ↦ ok (dir_observation i.mtime_ms)
      | file ↦ elim version [
        | some v ↦ ok (remote_file_observation v i.size i.mtime_ms)
        | none ↦ inventory_fallback cached remote
      ]
    ]

  unfoldable pub collect_local : Scan → Option LocalEntry → Result SyncError (Option ObservedEntry)
  unfolding observe_local_entry_with_cache
  collect_local scan none = ok none
  collect_local scan (some e) = do
    observed ← observe_local_entry_with_cache scan.cached e
    ok (some observed)

  unfoldable pub list_remote : Scan → Option RemoteEntry → Result SyncError (Option ObservedEntry)
  unfolding observe_remote_entry_with_manifest
  list_remote scan none = ok none
  list_remote scan (some e) = do
    observed ← observe_remote_entry_with_manifest scan.manifest e
    ok (some observed)

  -- By the manifest when it can be used, else by listing.
  unfoldable pub collect_remote :
      Scan → Option RemoteEntry → Result SyncError (Option ObservedEntry)
  unfolding list_remote observe_remote_inventory_entry
  collect_remote scan remote = elim scan.inventory [
    | none ↦ list_remote scan remote
    | some none ↦ ok none
    | some (some i) ↦ elim (observe_remote_inventory_entry scan.manifest i remote) [
      | ok observed ↦ ok (some observed)
      | err x ↦ list_remote scan remote
    ]
  ]
