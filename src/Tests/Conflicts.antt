-- ===== src/Tests/Conflicts.antt =====
-- Conflicts of the planner, at concrete entries.
use section.Base.{◌≡◌, refl, true, false, Option, none, some, [], pos}
use section.Sync.Records.{
  file, dir, ObservedEntry, PathSyncStateRecord, conflict_record, absent_conflict_record,
}
use section.Sync.Coordinator.{PathSyncInput, static, plan_path, pull_ops}
use section.Sync.Coordinator.Conflict.{
  plan_path-absent_conflict_pulls, plan_path-deleted_conflict_holds,
}
use section.Tests.Sync.{source, some_path, file_with, synced}

abbrev input :
    Option PathSyncStateRecord → Option ObservedEntry → Option ObservedEntry → PathSyncInput
input previous l r = record { path = some_path; previous = previous; local = l; remote = r }

abbrev l2 : ObservedEntry
l2 = file_with "l2"

abbrev r2 : ObservedEntry
r2 = file_with "r2"

abbrev folder : ObservedEntry
folder = record { kind = dir; version = none; size = none; mtime_ms = none }

abbrev both_changed : PathSyncStateRecord
both_changed = conflict_record source some_path l2 r2 synced

abbrev deleted_here : PathSyncStateRecord
deleted_here = absent_conflict_record source some_path file false (some "r2") synced

plan_path-absent_conflict_pulls_example :
    ((plan_path (pos 5) source (input synced none (some r2))).conflicts ≡ 1)
    × ((plan_path (pos 5) source (input synced none (some r2))).record_spec ≡ static deleted_here)
    × ((plan_path (pos 9) source (input (some deleted_here) none (some r2))).ops
        ≡ pull_ops some_path file)
    × ((plan_path (pos 9) source (input (some deleted_here) none (some r2))).conflicts ≡ 0)
plan_path-absent_conflict_pulls_example =
    plan_path-absent_conflict_pulls (pos 5) (pos 9) source some_path synced r2 refl refl

abbrev deleted_there : PathSyncStateRecord
deleted_there = absent_conflict_record source some_path file true none synced

plan_path-deleted_conflict_holds_example :
    ((plan_path (pos 5) source (input synced (some l2) none)).conflicts ≡ 1)
    × ((plan_path (pos 5) source (input synced (some l2) none)).record_spec ≡ static deleted_there)
    × ((plan_path (pos 9) source (input (some deleted_there) (some l2) none)).ops ≡ [])
    × ((plan_path (pos 9) source (input (some deleted_there) (some l2) none)).conflicts ≡ 1)
plan_path-deleted_conflict_holds_example =
    plan_path-deleted_conflict_holds (pos 5) (pos 9) source some_path synced l2 "r1" refl refl
