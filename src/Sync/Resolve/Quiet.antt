-- ===== src/Sync/Resolve/Quiet.antt =====
-- States of a path after which the next pass has nothing to do.
use section.Base.{
  Bool, false, not, ◌≡◌, refl, true, Option, none, some, [], arith, ℤ, ok, string_eq, option_eq,
}
use section.Base.Text.{Text}
use section.Sync.Records.{kind_eq, ObservedEntry, ready_record}
use section.Sync.Backend.{
  Bytes, LocalEntry, file_entry, dir_entry, special_entry, RemoteEntry, Backend, IsLawful,
  EntryMode, unknown_mode, dir_mode, file_mode, is_dir_mode, inspect_local, inspect_remote, or_else,
  remote_file_token, remote_file_version,
}
use section.Sync.Coordinator.{plan_path, forget}
use section.Sync.Transport.{Sides, create_local, create_remote, write_local, write_remote, execute}
use section.Sync.Pass.{PathPass, act, finish, materialize_record}
use section.Sync.Pass.Settled.{settled_at, inspected_path}
use section.Sync.Resolve.{PathResolveStrategy, use_local, use_remote, ResolveOutcome}

-- The next pass, when it observes the sides as they are, runs, plans no operation and no event, and leaves the sides as they are.
abbrev pub Quiet : Backend → Text → Text → ℤ → ResolveOutcome → Type 0
Quiet b source_id path later out =
    (next : PathPass) × (inspected_path b source_id path later (some out.stored) out.sides
      ≡ ok next)
    × (next.sides ≡ out.sides)
    × (next.plan.ops ≡ [])
    × (next.plan.events ≡ [])

-- The side that the strategy names is as it was.
abbrev pub Chosen : PathResolveStrategy → Sides → Sides → Type 0
Chosen use_local before after = after.local ≡ before.local
Chosen use_remote before after = after.remote ≡ before.remote

-- A directory, or something else, stands there.
abbrev pub is_dir_at : Option RemoteEntry → Bool
is_dir_at none = false
is_dir_at (some e) = is_dir_mode e.meta.mode

abbrev pub is_file_at : Option RemoteEntry → Bool
is_file_at none = false
is_file_at (some e) = not (is_dir_mode e.meta.mode)

-- Resolving pushes the local side over a remote entry of the other kind.
abbrev pub pushes_over_other : PathResolveStrategy → Sides → Bool
pushes_over_other use_remote s = false
pushes_over_other use_local s = elim s.local [
  | some (file_entry bytes m) ↦ is_dir_at s.remote
  | some (dir_entry m) ↦ is_file_at s.remote
  | _ ↦ false
]

is_dir : (m : EntryMode) → is_dir_mode m ≡ true → m ≡ dir_mode
is_dir file_mode h = absurd cc
is_dir dir_mode h = refl
is_dir unknown_mode h = absurd cc

module _ (b : Backend) (source_id path : Text) (later : ℤ) where
  -- A record of what both sides show is quiet.
  pub Quiet-at :
      (l r : ObservedEntry) (out : ResolveOutcome)
      → inspect_local b out.sides.local ≡ ok (some l)
      → inspect_remote b out.sides.remote ≡ ok (some r)
      → kind_eq l.kind r.kind ≡ true
      → out.stored ≡ ready_record source_id path l.kind l.version r.version true
      → Quiet b source_id path later out
  Quiet-at l r out hl hr k e =
      let (next, run, no_ops, no_events) =
        settled_at b source_id path later l r out.sides hl hr k in
      (
        record { stored = some out.stored; sides = out.sides; plan = next },
        rw e run,
        refl,
        no_ops,
        no_events,
      )

  pub Quiet-absent :
      (out : ResolveOutcome)
      → out.sides.local ≡ none
      → out.sides.remote ≡ none
      → Quiet b source_id path later out
  unfolding inspected_path act finish plan_path execute materialize_record inspect_local
      inspect_remote
  Quiet-absent out hl hr = (
    record { stored = none; sides = out.sides; plan = forget later source_id path },
    ground (arith, hl, hr),
    refl,
    refl,
    refl,
  )

module _ (b : Backend) where
  pub written_remote :
      (bytes : Bytes) (re re' : Option RemoteEntry)
      → is_dir_at re ≡ false
      → write_remote b bytes re ≡ ok re'
      → re' ≡ some (record { meta = b.written bytes; body = bytes })
  unfolding write_remote
  written_remote bytes none re' _ h = ground arith
  written_remote bytes (some e) re' f h = ground arith

  pub written_local :
      (bytes : Bytes) (lo lo' : Option LocalEntry)
      → write_local b bytes lo ≡ ok lo'
      → lo' ≡ some (file_entry bytes b.touched)
  unfolding write_local
  written_local bytes none lo' h = ground arith
  written_local bytes (some (file_entry c m)) lo' h = ground arith
  written_local bytes (some (dir_entry m)) lo' h = absurd cc
  written_local bytes (some special_entry) lo' h = ground arith

  pub created_local :
      (lo lo' : Option LocalEntry)
      → create_local b lo ≡ ok lo'
      → (m : Option ℤ) × (lo' ≡ some (dir_entry m))
  unfolding create_local
  created_local none lo' h = (b.touched, ground arith)
  created_local (some (dir_entry m)) lo' h = (m, ground arith)
  created_local (some (file_entry c m)) lo' h = absurd cc
  created_local (some special_entry) lo' h = absurd cc

  -- The version that is stored after a push is the one that is observed next.
  pub pushed_token :
      (bytes : Bytes)
      → or_else (remote_file_token (b.written bytes)) (some (b.hash bytes))
        ≡ some (remote_file_version b (record { meta = b.written bytes; body = bytes }))
  unfolding remote_file_version
  pushed_token bytes = ground arith

module _ (b : Backend) (lawful : IsLawful b) where
  pub created_remote :
      (re re' : Option RemoteEntry)
      → is_file_at re ≡ false
      → create_remote b re ≡ ok re'
      → (e : RemoteEntry) × (re' ≡ some e) × (e.meta.mode ≡ dir_mode)
  unfolding create_remote
  created_remote none re' _ h =
      (record { meta = b.created; body = [] }, ground arith, lawful.created_dir)
  created_remote (some e) re' f h = (e, ground arith, is_dir e.meta.mode (ground arith))
