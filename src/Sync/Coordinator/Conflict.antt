-- ===== src/Sync/Coordinator/Conflict.antt =====
-- What the planner of crates/sectiond/src/sync/coordinator.rs does about a path after it has
-- stored a conflict record for it, when nothing on the two sides has moved since.
use section.Base.{
  ◌≡◌, true, false, Option, none, some, [], arith, ℤ, String, ◌==◌, string_eq, option_eq,
}
use section.Base.Text.{Text}
use section.Sync.Records.{
  kind_eq, ObservedEntry, PathSyncStateRecord, base_of, last_local_of, present_of, conflict_record,
  absent_conflict_record,
}
use section.Sync.Coordinator.{static, plan_path, plan_sides, pull_ops, remote_changed}

-- When a file was deleted locally and changed remotely, the plan is a conflict. The plan made from
-- the stored conflict record and the same two sides pulls the file again, without a conflict.
pub plan_path-absent_conflict_pulls :
    (now later : ℤ) (source_id path : Text) (previous : Option PathSyncStateRecord)
    (r : ObservedEntry)
    → present_of previous ≡ true
    → remote_changed previous (some r) ≡ true
    → let held = absent_conflict_record source_id path r.kind false r.version previous in
      let first =
        plan_path now source_id
          (record { path = path; previous = previous; local = none; remote = some r }) in
      let next =
        plan_path later source_id
          (record { path = path; previous = some held; local = none; remote = some r }) in
      (first.conflicts ≡ 1)
      × (first.record_spec ≡ static held)
      × (next.ops ≡ pull_ops path r.kind)
      × (next.conflicts ≡ 0)
unfolding plan_path plan_sides
plan_path-absent_conflict_pulls now later source_id path previous r p hr = ground arith

-- A local file and a remote directory, or the reverse, are a conflict for every stored record: no
-- operation is planned for the path.
pub plan_path-kinds_differ :
    (now : ℤ) (source_id path : Text) (previous : Option PathSyncStateRecord) (l r : ObservedEntry)
    → kind_eq l.kind r.kind ≡ false
    → let p =
        plan_path now source_id
          (record { path = path; previous = previous; local = some l; remote = some r }) in
      (p.ops ≡ [])
      × (p.conflicts ≡ 1)
      × (p.record_spec ≡ static (conflict_record source_id path l r previous))
unfolding plan_path plan_sides
plan_path-kinds_differ now source_id path previous l r k = ground arith

-- When a local entry no longer has the version recorded last and the remote file is gone, the plan is
-- a conflict, and so is the plan made from the stored conflict record and the same local entry: the path stays
-- paused.
pub plan_path-deleted_conflict_holds :
    (now later : ℤ) (source_id path : Text) (previous : Option PathSyncStateRecord)
    (l : ObservedEntry) (base : String)
    → base_of previous ≡ some base
    → (l.version == last_local_of previous) ≡ false
    → let held = absent_conflict_record source_id path l.kind true none previous in
      let first =
        plan_path now source_id
          (record { path = path; previous = previous; local = some l; remote = none }) in
      let next =
        plan_path later source_id
          (record { path = path; previous = some held; local = some l; remote = none }) in
      (first.conflicts ≡ 1)
      × (first.record_spec ≡ static held)
      × (next.ops ≡ [])
      × (next.conflicts ≡ 1)
unfolding plan_path plan_sides
plan_path-deleted_conflict_holds now later source_id path previous l base b hl = ground arith
