-- ===== src/Sync/Pass/Current.antt =====
-- A pass whose scan is current is the pass that observes the two sides as they are.
use section.Base.{◌≡◌, refl, sym, ap, ◌∙◌, Option, none, some, ℤ, Result, ok, err, ◌>>=◌}
use section.Base.Text.{Text}
use section.Sync.Records.{ObservedEntry, PathSyncStateRecord}
use section.Sync.Backend.{SyncError, Backend, IsLawful, inspect_local, inspect_remote}
use section.Sync.Coordinator.{plan_path, plan_sides}
use section.Sync.Transport.{Sides}
use section.Sync.Collector.{Scan, collect_local, collect_remote}
use section.Sync.Collector.Current.{
  IsCurrent, seen_at, seen_of, collect_local-seen, collect_remote-seen,
}
use section.Sync.Pass.{PathPass, act, sync_path}
use section.Sync.Pass.Settled.{inspected_path}

-- Both observations, and then what depends only on what is seen of them.
both-seen :
    {A : Type 0} (m n : Result SyncError (Option ObservedEntry))
    (f : Option ObservedEntry → Option ObservedEntry → Result SyncError A)
    → ((l r : Option ObservedEntry) → f l r ≡ f (seen_at l) (seen_at r))
    → (m >>= (λ l. n >>= (λ r. f l r))) ≡ (seen_of m >>= (λ l. seen_of n >>= (λ r. f l r)))
both-seen (err x) n f same = refl
both-seen (ok l) (err x) f same = refl
both-seen (ok l) (ok r) f same = same l r

module _ (b : Backend) (lawful : IsLawful b) (source_id path : Text) where
  act-seen :
      (now : ℤ) (previous : Option PathSyncStateRecord) (s : Sides) (l r : Option ObservedEntry)
      → act b source_id path now previous l r s
        ≡ act b source_id path now previous (seen_at l) (seen_at r) s
  unfolding act plan_path plan_sides
  act-seen now previous s none none = refl
  act-seen now previous s none (some r) = refl
  act-seen now previous s (some l) none = refl
  act-seen now previous s (some l) (some r) = refl

  pub sync_path-inspected :
      (scan : Scan) (now : ℤ) (previous : Option PathSyncStateRecord) (s : Sides)
      → IsCurrent b scan s
      → sync_path b source_id path scan now previous s
        ≡ inspected_path b source_id path now previous s
  unfolding sync_path inspected_path
  sync_path-inspected scan now previous s current =
      let f : Option ObservedEntry → Option ObservedEntry → Result SyncError PathPass =
        λ l r. act b source_id path now previous l r s in
      let run : Result SyncError (Option ObservedEntry)
          → Result SyncError (Option ObservedEntry)
          → Result SyncError PathPass =
        λ m n. m >>= (λ l. n >>= (λ r. f l r)) in
      both-seen (collect_local b scan s.local) (collect_remote b scan s.remote) f
        (act-seen now previous s)
      ∙ ap (λ m. run m (seen_of (collect_remote b scan s.remote)))
          (collect_local-seen b lawful scan s current)
      ∙ ap (run (seen_of (inspect_local b s.local))) (collect_remote-seen b lawful scan s current)
      ∙ sym (
          both-seen (inspect_local b s.local) (inspect_remote b s.remote) f
            (act-seen now previous s))
