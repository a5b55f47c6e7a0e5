-- ===== src/Sync/Pass.antt =====
-- One pass of `sync_source_with_options` of crates/sectiond/src/sync.rs as it treats one path, which no
-- operation on another path of the pass touches: collect what the two sides are, plan, execute, and
-- turn the plan into the record to store.
pub mod Observed
pub mod Settled
pub mod Current
pub mod Branches
pub mod Converges
use section.Base.{
  Bool, true, false, Option, none, some, List, [], ◌∷◌, String, ℤ, Result, ok, err, ◌>>=◌,
}
use section.Base.Text.{Text}
use section.Sync.Records.{PathSyncStateRecord, PendingSyncEvent, ready_record, ObservedEntry}
use section.Sync.Backend.{SyncError, Backend, or_else}
use section.Sync.Collector.{Scan, collect_local, collect_remote}
use section.Sync.Coordinator.{
  PathSyncPlan, PlannedRecordSpec, remove, static, ready_from_pushed_local,
  ready_from_pulled_remote, plan_path,
}
use section.Sync.Transport.{Sides, TransportOutcome, no_outcome, execute}

-- `materialize_record`: `none` removes the stored record.
unfoldable pub materialize_record :
    Text → Text → PlannedRecordSpec → TransportOutcome → Option PathSyncStateRecord
materialize_record source_id source_path remove out = none
materialize_record source_id source_path (static r) out = some r
materialize_record source_id source_path (ready_from_pushed_local kind v) out =
    some (ready_record source_id source_path kind v (or_else out.remote_version v) true)
materialize_record source_id source_path (ready_from_pulled_remote kind v) out =
    some (ready_record source_id source_path kind out.local_version v true)

pub record PathPass : Type 0 where
  pub stored : Option PathSyncStateRecord
  pub sides : Sides
  pub plan : PathSyncPlan

module _ (b : Backend) (source_id path : Text) where
  -- The transport runs the plan, and the record is made from its outcome.
  unfoldable pub finish : PathSyncPlan → Sides → Result SyncError PathPass
  finish p s = elim (execute b p.ops s no_outcome) [
    | err x ↦ err x
    | ok (s', out) ↦ ok (record {
      stored = materialize_record source_id path p.record_spec out;
      sides = s';
      plan = p;
    })
  ]

  -- What is done once the two sides are collected.
  unfoldable pub act :
      ℤ
      → Option PathSyncStateRecord
      → Option ObservedEntry
      → Option ObservedEntry
      → Sides
      → Result SyncError PathPass
  act now previous l r s =
      finish
        (plan_path now source_id
          (record { path = path; previous = previous; local = l; remote = r }))
        s

  unfoldable pub sync_path :
      Scan → ℤ → Option PathSyncStateRecord → Sides → Result SyncError PathPass
  unfolding act
  sync_path scan now previous s = do
    l ← collect_local b scan s.local
    r ← collect_remote b scan s.remote
    act now previous l r s
