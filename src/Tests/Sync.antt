-- ===== src/Tests/Sync.antt =====
-- The planner and the pass over one path, at concrete entries.
use section.Base.{
  ◌≡◌, inr, refl, true, Option, none, some, [], ◌∷◌, length, pos, String, Result, ok, err, is_empty,
  if◌then◌else◌,
}
use section.Base.Text.{Text, codes}
use section.Sync.Records.{
  file, ObservedEntry, PathSyncStateRecord, ready_record, present_of, last_local_of, base_of,
}
use section.Sync.Backend.{
  SyncError, LocalEntry, io_error, Bytes, file_mode, dir_mode, Metadata, file_entry, Backend,
  IsLawful,
}
use section.Sync.Coordinator.{PathSyncInput, plan_path, plan_sides, push, pull_ops, push_ops}
use section.Sync.Coordinator.Safety.{plan_path-keeps_local, plan_path-keeps_remote}
use section.Sync.Transport.{Sides, execute, perform}
use section.Sync.Collector.{
  Scan, collect_local, collect_remote, cached_local_version, cached_manifest_version,
}
use section.Sync.Collector.Current.{IsCurrent}
use section.Sync.Pass.{PathPass, sync_path, finish}

abbrev pub source : Text
source = codes "src"

abbrev pub some_path : Text
some_path = codes "a.txt"

-- An entry of a file with a version.
abbrev pub file_with : String → ObservedEntry
file_with v = record { kind = file; version = some v; size = some 1; mtime_ms = none }

abbrev pub synced : Option PathSyncStateRecord
synced = some (ready_record source some_path file (some "l1") (some "r1") true)

-- The remote file changed, the local one did not.
abbrev changed_remotely : PathSyncInput
changed_remotely = record {
  path = some_path;
  previous = synced;
  local = some (file_with "l1");
  remote = some (file_with "r2");
}

abbrev changed_locally : PathSyncInput
changed_locally = record {
  path = some_path;
  previous = synced;
  local = some (file_with "l2");
  remote = some (file_with "r1");
}

plan_path-keeps_local_example : (present_of synced ≡ true) × (some "l1" ≡ last_local_of synced)
unfolding plan_path plan_sides pull_ops
plan_path-keeps_local_example =
    plan_path-keeps_local (pos 5) source changed_remotely (file_with "l1") refl refl

plan_path-keeps_remote_example : some "r1" ≡ base_of synced
unfolding plan_path plan_sides push_ops
plan_path-keeps_remote_example =
    plan_path-keeps_remote (pos 5) source changed_locally (file_with "r1") refl refl

-- A backend whose files carry an etag that tells the empty file from the others.
abbrev pub file_meta : Bytes → Metadata
file_meta bytes = record {
  mode = file_mode;
  version = none;
  etag = some (if is_empty bytes then "t0" else "t1");
  content_length = length bytes;
  mtime_ms = none;
}

abbrev pub dir_meta : Metadata
dir_meta = record {
  mode = dir_mode;
  version = none;
  etag = none;
  content_length = 0;
  mtime_ms = none;
}

abbrev pub test_backend : Backend
test_backend = record {
  hash = λ bytes. if is_empty bytes then "h0" else "h1";
  written = file_meta;
  closed = file_meta;
  created = dir_meta;
  touched = none;
  listed = λ e. e.meta;
  write_over_dir = λ bytes e. err io_error;
  create_over_file = λ e. err io_error;
  delete_other = λ kind e. some e;
}

pub test_backend-IsLawful : IsLawful test_backend
test_backend-IsLawful = record {
  written_file = λ bytes. refl;
  created_dir = refl;
  closed_token = λ bytes. inr refl;
  listed_mode = λ e. refl;
  listed_token = λ e. inr refl;
}

-- A scan that finds no record and has no manifest.
abbrev pub first_scan : Scan
first_scan = record { cached = none; manifest = none; inventory = none }

pub first_scan-IsCurrent : (s : Sides) → IsCurrent test_backend first_scan s
unfolding cached_local_version cached_manifest_version
first_scan-IsCurrent s = record {
  local_version = λ bytes m v h q. cc;
  listed_version = λ e v h q. cc;
  stat_version = λ e v h q. cc;
  no_inventory = refl;
}

-- A new local file, and what the pass over it leaves.
abbrev new_file : Sides
new_file = record { local = some (file_entry (1 ∷ []) none); remote = none }

abbrev pushed_file : PathPass
pushed_file = record {
  stored = some (ready_record source some_path file (some "h1") (some "t1") true);
  sides = record {
    local = some (file_entry (1 ∷ []) none);
    remote = some (record { meta = file_meta (1 ∷ []); body = 1 ∷ [] });
  };
  plan =
      push (pos 5) source some_path
        (record { kind = file; version = some "h1"; size = some 1; mtime_ms = none });
}

-- A manifest that does not have the pushed file makes the next pass delete the local one.
abbrev static_inventory : Scan
static_inventory = record { cached = none; manifest = none; inventory = some none }

abbrev local_after : Result SyncError PathPass → Result SyncError (Option LocalEntry)
local_after (ok p) = ok p.sides.local
local_after (err x) = err x

deletes_pushed :
    local_after (
      sync_path test_backend source some_path static_inventory
        (pos 9)
        pushed_file.stored
        pushed_file.sides)
    ≡ ok none
unfolding sync_path collect_local collect_remote finish execute plan_path perform
deletes_pushed = refl
