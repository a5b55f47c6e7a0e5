-- ===== src/Sync/Coordinator/Safety.antt =====
-- When `plan_path` of crates/sectiond/src/sync/coordinator.rs plans to write over one side of a path.
-- This is about the entry at the path itself: deleting a directory takes what is below it too, which
-- the plan of the directory does not look at.
use section.Base.{
  ◌+◌, ◌≤◌, ◌≡◌, refl, Bool, true, false, Option, none, some, arith, any, length, ℤ, ==_iff,
  string_eq, option_eq,
}
use section.Base.Text.{Text}
use section.Sync.Records.{
  EntryKind, file, dir, ObservedEntry, PathSyncStateRecord, base_of, last_local_of, present_of,
}
use section.Sync.Coordinator.{
  PathSyncInput, PathSyncPlan, PlannedOp, pull_file, push_file, delete_local, delete_remote,
  plan_path, plan_sides, pull_ops, push_ops,
}

-- The operation replaces or deletes what stands on the local side, or on the remote side.
abbrev pub writes_local : PlannedOp → Bool
writes_local (pull_file p) = true
writes_local (delete_local p k) = true
writes_local _ = false

abbrev pub writes_remote : PlannedOp → Bool
writes_remote (push_file p) = true
writes_remote (delete_remote p k) = true
writes_remote _ = false

pull_ops_remote : (p : Text) (k : EntryKind) → any writes_remote (pull_ops p k) ≡ false
unfolding pull_ops
pull_ops_remote p file = refl
pull_ops_remote p dir = refl

push_ops_local : (p : Text) (k : EntryKind) → any writes_local (push_ops p k) ≡ false
unfolding push_ops
push_ops_local p file = refl
push_ops_local p dir = refl

module _ (now : ℤ) (source_id path : Text) (previous : Option PathSyncStateRecord) where
  sides_local :
      (l : ObservedEntry) (remote : Option ObservedEntry)
      → any writes_local (plan_sides now source_id path previous (some l) remote).ops ≡ true
      → (present_of previous ≡ true) × (l.version ≡ last_local_of previous)
  unfolding plan_sides
  sides_local l none h =
      ground (arith, ==_iff l.version (last_local_of previous), push_ops_local path l.kind)
  sides_local l (some r) h =
      ground (arith, ==_iff l.version (last_local_of previous), push_ops_local path l.kind)

  sides_remote :
      (local : Option ObservedEntry) (r : ObservedEntry)
      → any writes_remote (plan_sides now source_id path previous local (some r)).ops ≡ true
      → r.version ≡ base_of previous
  unfolding plan_sides
  sides_remote none r h =
      ground (arith, ==_iff r.version (base_of previous), pull_ops_remote path r.kind)
  sides_remote (some l) r h =
      ground (arith, ==_iff r.version (base_of previous), pull_ops_remote path r.kind)

-- The plan of a path has an operation that replaces or deletes its local entry only if the stored
-- record has the entry as present, with the version that is observed. Nothing is said of the entries
-- below a directory, which the deletion of the directory takes too.
pub plan_path-keeps_local :
    (now : ℤ) (source_id : Text) (input : PathSyncInput) (l : ObservedEntry)
    → input.local ≡ some l
    → any writes_local (plan_path now source_id input).ops ≡ true
    → (present_of input.previous ≡ true) × (l.version ≡ last_local_of input.previous)
unfolding plan_path
plan_path-keeps_local now source_id input l e h =
    sides_local now source_id input.path input.previous l input.remote (rw e at h)

-- The plan of a path has an operation that replaces or deletes its remote entry only if the entry is
-- observed with the version that the stored record has as the base. Nothing is said of the entries
-- below a directory, which the deletion of the directory takes too.
pub plan_path-keeps_remote :
    (now : ℤ) (source_id : Text) (input : PathSyncInput) (r : ObservedEntry)
    → input.remote ≡ some r
    → any writes_remote (plan_path now source_id input).ops ≡ true
    → r.version ≡ base_of input.previous
unfolding plan_path
plan_path-keeps_remote now source_id input r e h =
    sides_remote now source_id input.path input.previous input.local r (rw e at h)

ops_one : (p : Text) (k : EntryKind) → (length (pull_ops p k) ≡ 1) × (length (push_ops p k) ≡ 1)
unfolding pull_ops push_ops
ops_one p file = (refl, refl)
ops_one p dir = (refl, refl)

abbrev Counts : PathSyncPlan → Type 0
Counts p =
    (length p.ops ≡ p.pulled + p.pushed)
    × (length p.events ≡ p.pulled + p.pushed + p.conflicts)
    × (p.pulled + p.pushed + p.conflicts ≤ 1)

sides-Counts :
    (now : ℤ) (source_id path : Text) (previous : Option PathSyncStateRecord)
    (local remote : Option ObservedEntry)
    → Counts (plan_sides now source_id path previous local remote)
unfolding plan_sides
sides-Counts now source_id path previous none none = ground arith
sides-Counts now source_id path previous none (some r) = ground (arith, ops_one path r.kind)
sides-Counts now source_id path previous (some l) none = ground (arith, ops_one path l.kind)
sides-Counts now source_id path previous (some l) (some r) =
    ground (arith, ops_one path l.kind, ops_one path r.kind)

-- Every plan is one of: nothing, one pull, one push, one conflict. A pull or a push has exactly
-- one operation, a conflict has none, and each of the three announces itself by one event.
pub plan_path-counts :
    (now : ℤ) (source_id : Text) (input : PathSyncInput)
    → let p = plan_path now source_id input in
      (length p.ops ≡ p.pulled + p.pushed)
      × (length p.events ≡ p.pulled + p.pushed + p.conflicts)
      × (p.pulled + p.pushed + p.conflicts ≤ 1)
unfolding plan_path
plan_path-counts now source_id input = sides-Counts now source_id input.path input.previous _ _
