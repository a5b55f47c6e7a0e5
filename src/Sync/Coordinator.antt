-- ===== src/Sync/Coordinator.antt =====
-- crates/sectiond/src/sync/coordinator.rs: what one pass does about one path, from the record of
-- the last pass and from what stands on the two sides now.
pub mod Safety
pub mod Conflict
use section.Base.{
  ℕ, Bool, true, false, not, ◌&&◌, ◌||◌, Option, none, some, List, [], ◌∷◌, String, ℤ, map,
  if◌then◌else◌, is_some, ◌==◌, string_eq, option_eq,
}
use section.Base.Text.{Text}
use section.Sync.Records.{
  EntryKind, file, dir, kind_eq, ObservedEntry, PathSyncStateRecord, PendingSyncEvent, base_of,
  last_local_of, present_of, version_of, ready_record, conflict_record, absent_conflict_record,
  event_for,
}

pub record PathSyncInput : Type 0 where
  pub path : Text
  pub previous : Option PathSyncStateRecord
  pub local : Option ObservedEntry
  pub remote : Option ObservedEntry

pub data PlannedOp : Type 0 where
  create_local_dir create_remote_dir pull_file push_file : Text → PlannedOp
  delete_local delete_remote : Text → EntryKind → PlannedOp

pub data PlannedRecordSpec : Type 0 where
  remove : PlannedRecordSpec
  static : PathSyncStateRecord → PlannedRecordSpec
  ready_from_pushed_local ready_from_pulled_remote : EntryKind → Option String → PlannedRecordSpec

pub record PathSyncPlan : Type 0 where
  pub path : Text
  pub ops : List PlannedOp
  pub record_spec : PlannedRecordSpec
  pub events : List PendingSyncEvent
  pub pulled : ℕ
  pub pushed : ℕ
  pub conflicts : ℕ

unfoldable pub pull_ops : Text → EntryKind → List PlannedOp
pull_ops path dir = create_local_dir path ∷ []
pull_ops path file = pull_file path ∷ []

unfoldable pub push_ops : Text → EntryKind → List PlannedOp
push_ops path dir = create_remote_dir path ∷ []
push_ops path file = push_file path ∷ []

unfoldable pub pull_record_spec : Text → Text → EntryKind → Option String → PlannedRecordSpec
pull_record_spec source_id path dir version =
    static (ready_record source_id path dir none none true)
pull_record_spec source_id path file version = ready_from_pulled_remote file version

unfoldable pub push_record_spec : Text → Text → EntryKind → Option String → PlannedRecordSpec
push_record_spec source_id path dir version =
    static (ready_record source_id path dir none none true)
push_record_spec source_id path file version = ready_from_pushed_local file version

-- The plans that the branches of `plan_path` return.
module _ (now : ℤ) (source_id path : Text) where
  abbrev pub forget : PathSyncPlan
  forget = record {
    path = path;
    ops = [];
    record_spec = remove;
    events = [];
    pulled = 0;
    pushed = 0;
    conflicts = 0;
  }

  abbrev pub settle : ObservedEntry → ObservedEntry → PathSyncPlan
  settle l r = record {
    path = path;
    ops = [];
    record_spec = static (ready_record source_id path l.kind l.version r.version true);
    events = [];
    pulled = 0;
    pushed = 0;
    conflicts = 0;
  }

  abbrev pub push : ObservedEntry → PathSyncPlan
  push l = record {
    path = path;
    ops = push_ops path l.kind;
    record_spec = push_record_spec source_id path l.kind l.version;
    events = event_for now source_id path "synced_to_remote" "ready" ∷ [];
    pulled = 0;
    pushed = 1;
    conflicts = 0;
  }

  abbrev pub pull : ObservedEntry → PathSyncPlan
  pull r = record {
    path = path;
    ops = pull_ops path r.kind;
    record_spec = pull_record_spec source_id path r.kind r.version;
    events = event_for now source_id path "synced_from_remote" "ready" ∷ [];
    pulled = 1;
    pushed = 0;
    conflicts = 0;
  }

  abbrev pub drop_remote : ObservedEntry → PathSyncPlan
  drop_remote r = record {
    path = path;
    ops = delete_remote path r.kind ∷ [];
    record_spec = remove;
    events = event_for now source_id path "synced_to_remote" "ready" ∷ [];
    pulled = 0;
    pushed = 1;
    conflicts = 0;
  }

  abbrev pub drop_local : ObservedEntry → PathSyncPlan
  drop_local l = record {
    path = path;
    ops = delete_local path l.kind ∷ [];
    record_spec = remove;
    events = event_for now source_id path "synced_from_remote" "ready" ∷ [];
    pulled = 1;
    pushed = 0;
    conflicts = 0;
  }

  abbrev pub conflict : PathSyncStateRecord → PathSyncPlan
  conflict r = record {
    path = path;
    ops = [];
    record_spec = static r;
    events = event_for now source_id path "conflict_detected" "conflict" ∷ [];
    pulled = 0;
    pushed = 0;
    conflicts = 1;
  }

-- `local_changed` and `remote_changed`
abbrev pub local_changed : Option PathSyncStateRecord → Option ObservedEntry → Bool
local_changed previous (some e) =
    not (e.version == last_local_of previous) || not (present_of previous)
local_changed previous none = present_of previous

abbrev pub remote_changed : Option PathSyncStateRecord → Option ObservedEntry → Bool
remote_changed previous remote = not (version_of remote == base_of previous)

module _ (now : ℤ) (source_id path : Text) (previous : Option PathSyncStateRecord) where
  -- The four arms of the `match`, and the two early returns in front of it.
  unfoldable pub plan_sides : Option ObservedEntry → Option ObservedEntry → PathSyncPlan
  plan_sides none none = forget now source_id path
  plan_sides (some l) (some r) =
      if not (kind_eq l.kind r.kind)
      then conflict now source_id path (conflict_record source_id path l r previous)
      else if not (local_changed previous (some l)) && not (remote_changed previous (some r))
      then settle now source_id path l r
      else if local_changed previous (some l) && not (remote_changed previous (some r))
      then push now source_id path l
      else if not (local_changed previous (some l)) && remote_changed previous (some r)
      then pull now source_id path r
      else conflict now source_id path (conflict_record source_id path l r previous)
  plan_sides none (some r) =
      if present_of previous
      then (if remote_changed previous (some r)
          then conflict now source_id path
              (absent_conflict_record source_id path r.kind false r.version previous)
          else drop_remote now source_id path r)
      else pull now source_id path r
  plan_sides (some l) none =
      if is_some (base_of previous)
      then (if local_changed previous (some l)
          then conflict now source_id path
              (absent_conflict_record source_id path l.kind true none previous)
          else drop_local now source_id path l)
      else push now source_id path l

-- `plan_path`, which never fails.
unfoldable pub plan_path : ℤ → Text → PathSyncInput → PathSyncPlan
unfolding plan_sides pull_ops push_ops pull_record_spec push_record_spec
plan_path now source_id input =
    plan_sides now source_id input.path input.previous input.local input.remote

-- `DefaultSyncCoordinator::plan`; `now` gives the clock reading at each path.
unfoldable pub plan : (Text → ℤ) → Text → List PathSyncInput → List PathSyncPlan
plan now source_id inputs = map (λ input. plan_path (now input.path) source_id input) inputs
