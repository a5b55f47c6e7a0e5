-- ===== src/Sync/Backend.antt =====
-- What stands on the two sides of one path, and how `inspect_local_entry` and `inspect_remote_entry`
-- of crates/sectiond/src/sync.rs observe it. The file system, the operator's backend and SHA-256 are
-- not the program's: they are the parameter `Backend`, with what the program relies on as `IsLawful`.
-- A path stands for one entry on each side: a backend that has both `path` and `path/` is left out.
use section.Base.{
  ℕ, ◌≡◌, ◌⊎◌, Bool, true, false, Option, none, some, String, ℤ, length, Result, ok, err,
  if◌then◌else◌, ◌==◌, string_eq,
}
use section.Base.Text.{Text}
use section.Sync.Records.{EntryKind, file, dir, ObservedEntry}

-- The bytes of a file.
abbrev pub Bytes : Type 0
Bytes = Text

-- `opendal::EntryMode`
pub data EntryMode : Type 0 where
  file_mode dir_mode unknown_mode : EntryMode

-- What the program reads of `opendal::Metadata`.
pub record Metadata : Type 0 where
  pub mode : EntryMode
  pub version : Option String
  pub etag : Option String
  pub content_length : ℕ
  pub mtime_ms : Option ℤ

pub data LocalEntry : Type 0 where
  file_entry : Bytes → Option ℤ → LocalEntry
  dir_entry : Option ℤ → LocalEntry
  special_entry : LocalEntry

pub record RemoteEntry : Type 0 where
  pub meta : Metadata
  pub body : Bytes

pub data SyncError : Type 0 where
  unsupported_local_entry unsupported_entry_mode not_found io_error : SyncError

-- `Some(v)` with the empty text left out.
abbrev pub nonempty : Option String → Option String
nonempty none = none
nonempty (some v) = if v == "" then none else some v

abbrev pub or_else : Option String → Option String → Option String
or_else none d = d
or_else (some v) d = some v

-- `remote_file_token`
unfoldable pub remote_file_token : Metadata → Option String
remote_file_token meta = or_else (nonempty meta.version) (nonempty meta.etag)

abbrev pub is_dir_mode : EntryMode → Bool
is_dir_mode dir_mode = true
is_dir_mode _ = false

-- `metadata_entry_kind`
unfoldable pub metadata_entry_kind : Metadata → Result SyncError EntryKind
metadata_entry_kind meta = elim meta.mode [
  | file_mode ↦ ok file
  | dir_mode ↦ ok dir
  | unknown_mode ↦ err unsupported_entry_mode
]

pub record Backend : Type 0 where
  pub hash : Bytes → String
  -- The metadata of a file that was written with these bytes, by `stat` and by `writer.close`.
  pub written : Bytes → Metadata
  pub closed : Bytes → Metadata
  -- The metadata of a directory that was created.
  pub created : Metadata
  -- The modification time of a local file or directory that was written.
  pub touched : Option ℤ
  -- The metadata that listing reports of an entry.
  pub listed : RemoteEntry → Metadata
  -- What comes of writing a file where a directory stands, of creating a directory where another
  -- entry stands, and of deleting an entry as one of the other kind: each backend has its own way.
  pub write_over_dir : Bytes → RemoteEntry → Result SyncError (Option RemoteEntry)
  pub create_over_file : RemoteEntry → Result SyncError (Option RemoteEntry)
  pub delete_other : EntryKind → RemoteEntry → Option RemoteEntry

pub record IsLawful (b : Backend) : Type 0 where
  pub written_file : (bytes : Bytes) → (b.written bytes).mode ≡ file_mode
  pub created_dir : b.created.mode ≡ dir_mode
  -- Listing reports the mode, and if it reports a token at all, the one of `stat`.
  pub listed_mode : (e : RemoteEntry) → (b.listed e).mode ≡ e.meta.mode
  pub listed_token :
      (e : RemoteEntry)
      → (remote_file_token (b.listed e) ≡ none)
        ⊎ (remote_file_token (b.listed e) ≡ remote_file_token e.meta)
  -- If closing the writer reports a token at all, it is the one of the file.
  pub closed_token :
      (bytes : Bytes)
      → (remote_file_token (b.closed bytes) ≡ none)
        ⊎ (remote_file_token (b.closed bytes) ≡ remote_file_token (b.written bytes))

module _ (b : Backend) where
  -- `observe_local_entry`
  unfoldable pub observe_local_entry : LocalEntry → Result SyncError ObservedEntry
  observe_local_entry (dir_entry mtime) =
      ok (record { kind = dir; version = none; size = none; mtime_ms = mtime })
  observe_local_entry (file_entry bytes mtime) = ok (record {
    kind = file;
    version = some (b.hash bytes);
    size = some (length bytes);
    mtime_ms = mtime;
  })
  observe_local_entry special_entry = err unsupported_local_entry

  -- `remote_file_version`
  unfoldable pub remote_file_version : RemoteEntry → String
  remote_file_version e = elim (remote_file_token e.meta) [
    | some version ↦ version
    | none ↦ b.hash e.body
  ]

  -- `observe_remote_entry`
  unfoldable pub observe_remote_entry : RemoteEntry → Result SyncError ObservedEntry
  observe_remote_entry e = elim (metadata_entry_kind e.meta) [
    | err x ↦ err x
    | ok file ↦ ok (record {
      kind = file;
      version = some (remote_file_version e);
      size = some e.meta.content_length;
      mtime_ms = e.meta.mtime_ms;
    })
    | ok dir ↦ ok (record { kind = dir; version = none; size = none; mtime_ms = e.meta.mtime_ms })
  ]

  -- `inspect_local_entry` and `inspect_remote_entry`, of a path that may be absent.
  unfoldable pub inspect_local : Option LocalEntry → Result SyncError (Option ObservedEntry)
  inspect_local none = ok none
  inspect_local (some e) = elim (observe_local_entry e) [ ok o ↦ ok (some o) | err x ↦ err x ]

  unfoldable pub inspect_remote : Option RemoteEntry → Result SyncError (Option ObservedEntry)
  inspect_remote none = ok none
  inspect_remote (some e) = elim (observe_remote_entry e) [ ok o ↦ ok (some o) | err x ↦ err x ]
