-- ===== src/Sync/Resolve/UseRemote.antt =====
-- Resolving in favour of the remote side.
use section.Base.{
  ◌≡◌, refl, subst, ap, ◌∙◌, inl, inr, true, Option, none, some, arith, ℤ, Result, ok, string_eq,
  option_eq,
}
use section.Base.Text.{Text}
use section.Sync.Records.{file, dir, ObservedEntry, ready_record}
use section.Sync.Backend.{
  LocalEntry, file_entry, dir_entry, special_entry, RemoteEntry, SyncError, Backend, IsLawful,
  dir_mode, file_mode, inspect_local, inspect_remote, remote_file_version, observe_local_entry,
}
use section.Sync.Transport.{create_local, write_local, delete_local_entry}
use section.Sync.Pass.Observed.{
  obs_dir, obs_file, obs_remote, file_observed, dir_observed, remote_absent, remote_seen,
}
use section.Sync.Resolve.{
  ResolveOutcome, pull_file_entry, pull_remote_entry, infer_local_kind_from_path, clear_local,
  apply_use_remote,
}
use section.Sync.Resolve.Quiet.{Quiet, Quiet-at, Quiet-absent, written_local, created_local}

module _ (b : Backend) (lawful : IsLawful b) (source_id path : Text) (later now : ℤ)
    (out : ResolveOutcome) where
  file_pulled :
      (lo : Option LocalEntry) (e : RemoteEntry) (l : Option ObservedEntry)
      → e.meta.mode ≡ file_mode
      → apply_use_remote b now source_id path l
          (some (obs_remote b e))
          (record { local = lo; remote = some e })
        ≡ ok out
      → Quiet b source_id path later out × (out.sides.remote ≡ some e)
  unfolding apply_use_remote pull_remote_entry pull_file_entry inspect_local observe_local_entry
  file_pulled lo e l is_file h =
      let wrote : write_local b e.body lo ≡ ok out.sides.local = ground (arith, h) in
      let remote_kept : out.sides.remote ≡ some e = ground (arith, h) in
      let stored : out.stored
          ≡ ready_record source_id path file (some (b.hash e.body)) (some (remote_file_version b e))
              true =
        ground (arith, h) in
      let local_now = written_local b e.body lo out.sides.local wrote in
      (
        Quiet-at b source_id path later (obs_file b e.body b.touched) (obs_remote b e) out
            (ap (inspect_local b) local_now)
            (ap (inspect_remote b) remote_kept ∙ file_observed b lawful e is_file) refl stored,
        remote_kept,
      )

  dir_pulled :
      (lo : Option LocalEntry) (e : RemoteEntry) (l : Option ObservedEntry)
      → e.meta.mode ≡ dir_mode
      → apply_use_remote b now source_id path l
          (some (obs_dir e.meta.mtime_ms))
          (record { local = lo; remote = some e })
        ≡ ok out
      → Quiet b source_id path later out × (out.sides.remote ≡ some e)
  unfolding apply_use_remote pull_remote_entry inspect_local observe_local_entry
  dir_pulled lo e l is_dir' h =
      let made : create_local b lo ≡ ok out.sides.local = ground (arith, h) in
      let remote_kept : out.sides.remote ≡ some e = ground (arith, h) in
      let stored : out.stored ≡ ready_record source_id path dir none none true =
        ground (arith, h) in
      let (m, local_now) = created_local b lo out.sides.local made in
      (
        Quiet-at b source_id path later (obs_dir m) (obs_dir e.meta.mtime_ms) out
            (ap (inspect_local b) local_now)
            (ap (inspect_remote b) remote_kept ∙ dir_observed b lawful e is_dir') refl stored,
        remote_kept,
      )

  cleared_local : (lo lo' : Option LocalEntry) → clear_local b lo ≡ ok lo' → lo' ≡ none
  unfolding clear_local infer_local_kind_from_path delete_local_entry
  cleared_local none lo' h = ground arith
  cleared_local (some (file_entry bytes m)) lo' h = ground arith
  cleared_local (some (dir_entry m)) lo' h = ground arith
  cleared_local (some special_entry) lo' h = absurd cc

  pub remote_used :
      (lo : Option LocalEntry) (re : Option RemoteEntry) (l r : Option ObservedEntry)
      → inspect_remote b re ≡ ok r
      → apply_use_remote b now source_id path l r (record { local = lo; remote = re }) ≡ ok out
      → Quiet b source_id path later out × (out.sides.remote ≡ re)
  unfolding apply_use_remote
  remote_used lo re l none hr h =
      let remote_kept : out.sides.remote ≡ re = ground (arith, h) in
      let cleared : clear_local b lo ≡ ok out.sides.local = ground (arith, h) in
      (
        Quiet-absent b source_id path later out (cleared_local lo out.sides.local cleared)
            (remote_kept ∙ remote_absent b re hr),
        remote_kept,
      )
  remote_used lo re l (some r) hr h =
      let run : ObservedEntry → Option RemoteEntry → Result SyncError ResolveOutcome = λ r' re'.
        apply_use_remote b now source_id path l (some r') (record { local = lo; remote = re' }) in
      let (e, there, seen) = remote_seen b re r hr in
      elim seen [
        | inl (is_file, same) ↦
            subst (λ re'. Quiet b source_id path later out × (out.sides.remote ≡ re')) there
              (file_pulled lo e l is_file (ap (λ r'. run r' (some e)) same ∙ ap (run r) there ∙ h))
        | inr (is_dir', same) ↦
            subst (λ re'. Quiet b source_id path later out × (out.sides.remote ≡ re')) there
              (dir_pulled lo e l is_dir' (ap (λ r'. run r' (some e)) same ∙ ap (run r) there ∙ h))
      ]
