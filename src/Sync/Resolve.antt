-- ===== src/Sync/Resolve.antt =====
-- Comparing a path and resolving its conflict: `compare_path` and `resolve_path` of
-- crates/sectiond/src/sync.rs with what they call, on the two sides of the path as Sync.Transport has
-- them. The parent directories that are created are not modelled.
pub mod Quiet
pub mod UseLocal
pub mod UseRemote
pub mod Resolved
use section.Base.{
  Bool, true, false, not, ◌&&◌, Option, none, some, List, [], ◌∷◌, String, ℤ, Result, ok, err,
  ◌>>=◌, ◌>>◌, guard, is_some, if◌then◌else◌, ◌==◌, string_eq, option_eq,
}
use section.Base.Text.{Text}
use section.Sync.Records.{
  EntryKind, file, dir, as_str, ObservedEntry, PathSyncStateRecord, PendingSyncEvent, base_of,
  version_of, ready_record, ready_absent_record, event_for,
}
use section.Sync.Backend.{
  LocalEntry, file_entry, dir_entry, special_entry, RemoteEntry, SyncError, not_found,
  unsupported_local_entry, Backend, or_else, remote_file_token, inspect_local, inspect_remote,
}
use section.Sync.Transport.{
  Sides, create_local, create_remote, write_local, write_remote, delete_local_entry,
  delete_remote_entry,
}

-- The names of the source and of the path, and the roots, are left out.
pub record PathCompareSnapshot : Type 0 where
  pub entry_kind : Option String
  pub state : String
  pub local_present : Bool
  pub remote_present : Bool
  pub local_version : Option String
  pub base_remote_version : Option String
  pub current_remote_version : Option String
  pub local_matches_base : Bool
  pub local_matches_current_remote : Bool
  pub stale : Bool

unfoldable pub compare_match_flags :
    Option String → Option String → Option String → Option PathSyncStateRecord → Bool × Bool
compare_match_flags local_version base current (some record') =
    let matches_base = is_some local_version && local_version == record'.last_local_version in
    (matches_base, matches_base && current == record'.current_remote_version)
compare_match_flags local_version base current none = (
  is_some local_version && local_version == base,
  is_some local_version && local_version == current,
)

-- The kind of the local entry, or else of the remote one, or else as it is stored.
unfoldable pub compared_kind :
    Option ObservedEntry → Option ObservedEntry → Option PathSyncStateRecord → Option String
compared_kind (some l) r stored = some (as_str l.kind)
compared_kind none (some r) stored = some (as_str r.kind)
compared_kind none none (some record') = some record'.entry_kind
compared_kind none none none = none

unfoldable pub compared_state :
    Option ObservedEntry → Option ObservedEntry → Option PathSyncStateRecord → String
compared_state l r (some record') = record'.public_state
compared_state (some l) r none = "ready"
compared_state none (some r) none = "ready"
compared_state none none none = "error"

abbrev pub stale_of : Option PathSyncStateRecord → Bool
stale_of none = false
stale_of (some record') = record'.stale

unfoldable pub snapshot :
    Option ObservedEntry → Option ObservedEntry → Option PathSyncStateRecord → PathCompareSnapshot
unfolding compare_match_flags compared_kind compared_state
snapshot l r stored =
    let (matches_base, matches_remote) =
      compare_match_flags (version_of l) (base_of stored) (version_of r) stored in
    record {
      entry_kind = compared_kind l r stored;
      state = compared_state l r stored;
      local_present = is_some l;
      remote_present = is_some r;
      local_version = version_of l;
      base_remote_version = base_of stored;
      current_remote_version = version_of r;
      local_matches_base = matches_base;
      local_matches_current_remote = matches_remote;
      stale = stale_of stored;
    }

pub data PathResolveStrategy : Type 0 where
  use_local use_remote : PathResolveStrategy

pub data ResolveError : Type 0 where
  not_tracked not_in_conflict : ResolveError
  failed : SyncError → ResolveError

-- `?` on an error of the transport.
abbrev pub lifted {ℓ} : {A : Type ℓ} → Result SyncError A → Result ResolveError A
lifted (ok a) = ok a
lifted (err e) = err (failed e)

-- What is stored, what the sides are and which events are appended.
pub record ResolveOutcome : Type 0 where
  pub stored : PathSyncStateRecord
  pub sides : Sides
  pub events : List PendingSyncEvent

module _ (b : Backend) where
  unfoldable pub compare_path :
      Option PathSyncStateRecord → Sides → Result SyncError PathCompareSnapshot
  unfolding snapshot
  compare_path stored s = do
    l ← inspect_local b s.local
    r ← inspect_remote b s.remote
    ok (snapshot l r stored)

  -- The file that is read must still be there; `local` is what was observed.
  unfoldable pub push_file_entry :
      Option String
      → Option LocalEntry
      → Option RemoteEntry
      → Result SyncError (Option RemoteEntry × Option String)
  push_file_entry version (some (file_entry bytes m)) remote = do
    r ← write_remote b bytes remote
    ok (r, or_else (remote_file_token (b.written bytes)) version)
  push_file_entry version _ remote = err not_found

  unfoldable pub push_local_entry : ObservedEntry → Sides → Result SyncError (Sides × Option String)
  unfolding push_file_entry
  push_local_entry l s = elim l.kind [
    | dir ↦ do r ← create_remote b s.remote; ok (record s { remote = r }, none)
    | file ↦ do
      (r, version) ← push_file_entry l.version s.local s.remote
      ok (record s { remote = r }, version)
  ]

  unfoldable pub pull_file_entry :
      Option RemoteEntry → Option LocalEntry → Result SyncError (Option LocalEntry × Option String)
  pull_file_entry (some e) l = do l' ← write_local b e.body l; ok (l', some (b.hash e.body))
  pull_file_entry none l = err not_found

  unfoldable pub pull_remote_entry :
      ObservedEntry → Sides → Result SyncError (Sides × Option String)
  unfolding pull_file_entry
  pull_remote_entry r s = elim r.kind [
    | dir ↦ do l ← create_local b s.local; ok (record s { local = l }, none)
    | file ↦ do
      (l, version) ← pull_file_entry s.remote s.local
      ok (record s { local = l }, version)
  ]

  -- `infer_local_kind_from_path`
  unfoldable pub infer_local_kind_from_path : LocalEntry → Result SyncError EntryKind
  infer_local_kind_from_path (dir_entry m) = ok dir
  infer_local_kind_from_path (file_entry bytes m) = ok file
  infer_local_kind_from_path special_entry = err unsupported_local_entry

  -- The `exists` of the local path, and the deletion.
  unfoldable pub clear_local : Option LocalEntry → Result SyncError (Option LocalEntry)
  unfolding infer_local_kind_from_path
  clear_local none = ok none
  clear_local (some e) = do kind ← infer_local_kind_from_path e; delete_local_entry b kind (some e)

  unfoldable pub clear_remote : Option ObservedEntry → Option RemoteEntry → Option RemoteEntry
  clear_remote none e = e
  clear_remote (some r) e = delete_remote_entry b r.kind e

  module _ (now : ℤ) (source_id path : Text) where
    abbrev pub resolved_event : List PendingSyncEvent
    resolved_event = event_for now source_id path "resolved" "ready" ∷ []

    unfoldable pub apply_use_local :
        Option ObservedEntry → Option ObservedEntry → Sides → Result SyncError ResolveOutcome
    unfolding push_local_entry clear_remote
    apply_use_local (some l) r s = do
      (s', remote_version) ← push_local_entry l s
      ok (record {
        stored = ready_record source_id path l.kind l.version remote_version true;
        sides = s';
        events = resolved_event;
      })
    apply_use_local none r s = ok (record {
      stored = ready_absent_record source_id path;
      sides = record s { remote = clear_remote r s.remote };
      events = resolved_event;
    })

    unfoldable pub apply_use_remote :
        Option ObservedEntry → Option ObservedEntry → Sides → Result SyncError ResolveOutcome
    unfolding pull_remote_entry clear_local
    apply_use_remote l (some r) s = do
      (s', local_version) ← pull_remote_entry r s
      ok (record {
        stored = ready_record source_id path r.kind local_version r.version true;
        sides = s';
        events = resolved_event;
      })
    apply_use_remote l none s = do
      l' ← clear_local s.local
      ok (record {
        stored = ready_absent_record source_id path;
        sides = record s { local = l' };
        events = resolved_event;
      })

    unfoldable pub apply :
        PathResolveStrategy
        → Option ObservedEntry
        → Option ObservedEntry
        → Sides
        → Result SyncError ResolveOutcome
    unfolding apply_use_local apply_use_remote
    apply use_local l r s = apply_use_local l r s
    apply use_remote l r s = apply_use_remote l r s

    -- The test of the stored record.
    unfoldable pub check_conflict : Option PathSyncStateRecord → Result ResolveError (Unit {0})
    check_conflict none = err not_tracked
    check_conflict (some record') = guard (record'.public_state == "conflict") not_in_conflict

    unfoldable pub resolve_path :
        PathResolveStrategy
        → Option PathSyncStateRecord
        → Sides
        → Result ResolveError ResolveOutcome
    unfolding compare_path check_conflict apply
    resolve_path strategy stored s = do
      compare ← lifted (compare_path stored s)
      check_conflict stored
      l ← lifted (inspect_local b s.local)
      r ← lifted (inspect_remote b s.remote)
      lifted (apply strategy l r s)
