-- ===== src/Tests/Resolve.antt =====
-- Comparing a path in conflict, and resolving it.
use section.Base.{◌≡◌, refl, true, false, Option, none, some, [], ◌∷◌, pos, err}
use section.Sync.Records.{PathSyncStateRecord, conflict_record}
use section.Sync.Backend.{
  file_entry, inspect_local, observe_local_entry, inspect_remote, observe_remote_entry,
  metadata_entry_kind,
}
use section.Sync.Transport.{Sides}
use section.Sync.Resolve.{ResolveOutcome, use_remote, not_in_conflict, resolve_path}
use section.Tests.Sync.{source, some_path, file_with, file_meta, test_backend, synced}

abbrev conflicting : Option PathSyncStateRecord
conflicting = some (conflict_record source some_path (file_with "h1") (file_with "t0") synced)

abbrev differing : Sides
differing = record {
  local = some (file_entry (1 ∷ []) none);
  remote = some (record { meta = file_meta []; body = [] });
}

-- The local file is pushed over the remote one.
abbrev resolved : ResolveOutcome
resolved = record {
  stored = record {
    source_name = source;
    path = some_path;
    entry_kind = "file";
    public_state = "ready";
    local_present = true;
    dirty_local = false;
    dirty_remote = false;
    pinned = false;
    stale = false;
    last_local_version = some "h1";
    base_remote_version = some "t1";
    current_remote_version = some "t1";
  };
  sides = record {
    local = some (file_entry (1 ∷ []) none);
    remote = some (record { meta = file_meta (1 ∷ []); body = 1 ∷ [] });
  };
  events =
      record {
        source_name = source;
        path = some_path;
        kind = "resolved";
        state = "ready";
        created_at_ms = pos 5;
      }
      ∷ [];
}

-- A path that is not in conflict is not resolved.
not_resolved :
    resolve_path test_backend (pos 5) source some_path use_remote synced differing
    ≡ err not_in_conflict
unfolding resolve_path inspect_local observe_local_entry inspect_remote observe_remote_entry
    metadata_entry_kind
not_resolved = refl
