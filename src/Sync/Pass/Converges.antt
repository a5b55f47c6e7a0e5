-- ===== src/Sync/Pass/Converges.antt =====
-- A pass over one path that found no conflict leaves nothing to do for the next one.
use section.Base.{Option, ℤ, string_eq, option_eq}
use section.Base.Text.{Text}
use section.Sync.Records.{EntryKind, ObservedEntry}
use section.Sync.Backend.{LocalEntry, RemoteEntry, Backend, IsLawful}
use section.Sync.Coordinator.{PathSyncPlan}
use section.Sync.Pass.Branches.{After}

abbrev kind_of : ObservedEntry → EntryKind
kind_of e = e.kind

module _ (b : Backend) (lawful : IsLawful b) (source_id path : Text) (now later : ℤ) where
  abbrev Leaves : Option LocalEntry → Option RemoteEntry → PathSyncPlan → Type 0
  Leaves = After b lawful source_id path now later
