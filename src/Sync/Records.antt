-- ===== src/Sync/Records.antt =====
-- The records of crates/sectiond/src/sync.rs and of its store that the planner reads and writes,
-- and the functions that build them.
use section.Base.{
  ℕ, Bool, true, false, not, Option, none, some, String, ℤ, ◌==◌, string_eq, option_eq,
}
use section.Base.Text.{Text}

pub data EntryKind : Type 0 where
  file dir : EntryKind

-- `EntryKind::as_str`
unfoldable pub as_str : EntryKind → String
as_str file = "file"
as_str dir = "dir"

-- `PartialEq` of `EntryKind`
abbrev pub kind_eq : EntryKind → EntryKind → Bool
kind_eq file file = true
kind_eq dir dir = true
kind_eq _ _ = false

pub record ObservedEntry : Type 0 where
  pub kind : EntryKind
  pub version : Option String
  pub size : Option ℕ
  pub mtime_ms : Option ℤ

pub record PathSyncStateRecord : Type 0 where
  pub source_name : Text
  pub path : Text
  pub entry_kind : String
  pub public_state : String
  pub local_present : Bool
  pub dirty_local : Bool
  pub dirty_remote : Bool
  pub pinned : Bool
  pub stale : Bool
  pub last_local_version : Option String
  pub base_remote_version : Option String
  pub current_remote_version : Option String

pub record PendingSyncEvent : Type 0 where
  pub source_name : Text
  pub path : Text
  pub kind : String
  pub state : String
  pub created_at_ms : ℤ

-- `previous.and_then(|record| record.base_remote_version.clone())`
abbrev pub base_of : Option PathSyncStateRecord → Option String
base_of none = none
base_of (some r) = r.base_remote_version

abbrev pub last_local_of : Option PathSyncStateRecord → Option String
last_local_of none = none
last_local_of (some r) = r.last_local_version

-- `.map(|record| record.local_present).unwrap_or(false)`
abbrev pub present_of : Option PathSyncStateRecord → Bool
present_of none = false
present_of (some r) = r.local_present

abbrev pub version_of : Option ObservedEntry → Option String
version_of none = none
version_of (some e) = e.version

abbrev pub ready_record :
    Text → Text → EntryKind → Option String → Option String → Bool → PathSyncStateRecord
ready_record source_id source_path kind local_version remote_version local_present = record {
  source_name = source_id;
  path = source_path;
  entry_kind = as_str kind;
  public_state = "ready";
  local_present = local_present;
  dirty_local = false;
  dirty_remote = false;
  pinned = false;
  stale = false;
  last_local_version = local_version;
  base_remote_version = remote_version;
  current_remote_version = remote_version;
}

abbrev pub ready_absent_record : Text → Text → PathSyncStateRecord
ready_absent_record source_id source_path = record {
  source_name = source_id;
  path = source_path;
  entry_kind = "file";
  public_state = "ready";
  local_present = false;
  dirty_local = false;
  dirty_remote = false;
  pinned = false;
  stale = false;
  last_local_version = none;
  base_remote_version = none;
  current_remote_version = none;
}

abbrev pub conflict_record :
    Text → Text → ObservedEntry → ObservedEntry → Option PathSyncStateRecord → PathSyncStateRecord
conflict_record source_id source_path l r previous = record {
  source_name = source_id;
  path = source_path;
  entry_kind = as_str l.kind;
  public_state = "conflict";
  local_present = true;
  dirty_local = true;
  dirty_remote = true;
  pinned = false;
  stale = true;
  last_local_version = l.version;
  base_remote_version = base_of previous;
  current_remote_version = r.version;
}

abbrev pub absent_conflict_record :
    Text
    → Text
    → EntryKind
    → Bool
    → Option String
    → Option PathSyncStateRecord
    → PathSyncStateRecord
absent_conflict_record source_id source_path kind local_present current previous = record {
  source_name = source_id;
  path = source_path;
  entry_kind = as_str kind;
  public_state = "conflict";
  local_present = local_present;
  dirty_local = local_present;
  dirty_remote = not (current == base_of previous);
  pinned = false;
  stale = true;
  last_local_version = last_local_of previous;
  base_remote_version = base_of previous;
  current_remote_version = current;
}

-- The clock reading is an argument.
abbrev pub event_for : ℤ → Text → Text → String → String → PendingSyncEvent
event_for now source_id source_path kind state = record {
  source_name = source_id;
  path = source_path;
  kind = kind;
  state = state;
  created_at_ms = now;
}
