-- ===== src/Sync/Pass/Settled.antt =====
-- States that the next pass over a path leaves as they are.
use section.Base.{
  ◌≡◌, refl, sym, subst, true, Option, none, some, [], arith, ℤ, String, Result, ok, err, ◌>>=◌,
  ==_refl, string_eq, option_eq,
}
use section.Base.Text.{Text}
use section.Sync.Records.{EntryKind, kind_eq, ObservedEntry, PathSyncStateRecord, ready_record}
use section.Sync.Backend.{
  LocalEntry, RemoteEntry, SyncError, Backend, inspect_local, inspect_remote,
}
use section.Sync.Coordinator.{PathSyncPlan, plan_path, forget, settle}
use section.Sync.Transport.{Sides, execute}
use section.Sync.Pass.{PathPass, finish, act, materialize_record}

-- The pass over a path when its two sides are observed as they are now, by `inspect_local` and
-- `inspect_remote`.
unfoldable pub inspected_path :
    Backend → Text → Text → ℤ → Option PathSyncStateRecord → Sides → Result SyncError PathPass
unfolding act
inspected_path b source_id path now previous s = do
  l ← inspect_local b s.local
  r ← inspect_remote b s.remote
  act b source_id path now previous l r s

module _ (b : Backend) (source_id path : Text) (later : ℤ) where
  abbrev pub Stored : Type 0
  Stored = Option PathSyncStateRecord

  -- From this record and these sides, the next pass does nothing and stores the same record.
  abbrev pub Settled : Option PathSyncStateRecord → Sides → Type 0
  Settled stored s =
      (next : PathSyncPlan) × (inspected_path b source_id path later stored s
        ≡ ok (record { stored = stored; sides = s; plan = next }))
      × (next.ops ≡ [])
      × (next.events ≡ [])

  abbrev pub ready : EntryKind → Option String → Option String → Option PathSyncStateRecord
  ready k l r = some (ready_record source_id path k l r true)

  -- Both sides are as the record has them.
  pub settled_at :
      (l r : ObservedEntry) (s : Sides)
      → inspect_local b s.local ≡ ok (some l)
      → inspect_remote b s.remote ≡ ok (some r)
      → kind_eq l.kind r.kind ≡ true
      → Settled (ready l.kind l.version r.version) s
  unfolding inspected_path act finish plan_path execute materialize_record
  settled_at l r s hl hr k = (
    settle later source_id path l r,
    rw (hl, hr, ◌>>=◌) (ground (arith, ==_refl l.version, ==_refl r.version)),
    refl,
    refl,
  )

  pub settled_absent :
      (s : Sides)
      → inspect_local b s.local ≡ ok none
      → inspect_remote b s.remote ≡ ok none
      → Settled none s
  unfolding inspected_path act finish plan_path execute materialize_record
  settled_absent s hl hr = (forget later source_id path, rw (hl, hr, ◌>>=◌), refl, refl)

  abbrev pub AfterPass : Result SyncError PathPass → Type 0
  AfterPass (err x) = Unit
  AfterPass (ok p) = p.plan.conflicts ≡ 0 → Settled p.stored p.sides

  -- The plan, executed on these sides, fails or leaves a settled state.
  abbrev pub Settles : Option LocalEntry → Option RemoteEntry → PathSyncPlan → Type 0
  Settles lo re p = AfterPass (finish b source_id path p (record { local = lo; remote = re }))

  pub by_err :
      (lo : Option LocalEntry) (re : Option RemoteEntry) (p : PathSyncPlan) (x : SyncError)
      → finish b source_id path p (record { local = lo; remote = re }) ≡ err x
      → Settles lo re p
  by_err lo re p x e = subst AfterPass (sym e) tt

  pub by_ok :
      (lo : Option LocalEntry) (re : Option RemoteEntry) (p : PathSyncPlan)
      (stored : Option PathSyncStateRecord) (s : Sides)
      → finish b source_id path p (record { local = lo; remote = re })
        ≡ ok (record { stored = stored; sides = s; plan = p })
      → Settled stored s
      → Settles lo re p
  by_ok lo re p stored s e h = subst AfterPass (sym e) (λ _. h)
