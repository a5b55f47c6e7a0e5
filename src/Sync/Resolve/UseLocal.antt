-- ===== src/Sync/Resolve/UseLocal.antt =====
-- Resolving in favour of the local side.
use section.Base.{
  false, sym, ◌≡◌, refl, subst, ap, ◌∙◌, inl, inr, true, Option, none, some, arith, ℤ, Result, ok,
  string_eq, option_eq,
}
use section.Base.Text.{Text}
use section.Sync.Records.{file, dir, ObservedEntry, ready_record}
use section.Sync.Backend.{
  Bytes, LocalEntry, file_entry, dir_entry, RemoteEntry, SyncError, Backend, IsLawful,
  inspect_local, inspect_remote, or_else, remote_file_token, observe_local_entry,
}
use section.Sync.Transport.{create_remote, write_remote, delete_remote_entry}
use section.Sync.Pass.Observed.{
  obs_dir, obs_file, obs_remote, file_observed, dir_observed, local_absent, local_seen,
  remote_absent, remote_seen,
}
use section.Sync.Resolve.{
  use_local, ResolveOutcome, push_file_entry, push_local_entry, clear_remote, apply_use_local,
}
use section.Sync.Resolve.Quiet.{
  is_dir_at, is_file_at, pushes_over_other, Quiet, Quiet-at, Quiet-absent, written_remote,
  pushed_token, created_remote,
}

module _ (b : Backend) (lawful : IsLawful b) (source_id path : Text) (later now : ℤ)
    (out : ResolveOutcome) where
  file_outcome :
      (bytes : Bytes) (m : Option ℤ) (re : Option RemoteEntry) (r : Option ObservedEntry)
      → apply_use_local b now source_id path
          (some (obs_file b bytes m))
          r
          (record { local = some (file_entry bytes m); remote = re })
        ≡ ok out
      → (write_remote b bytes re ≡ ok out.sides.remote)
        × (out.sides.local ≡ some (file_entry bytes m))
        × (out.stored
            ≡ ready_record source_id path file
                (some (b.hash bytes))
                (or_else (remote_file_token (b.written bytes)) (some (b.hash bytes)))
                true)
  unfolding apply_use_local push_local_entry push_file_entry
  file_outcome bytes m re r h = ground arith

  file_pushed :
      (bytes : Bytes) (m : Option ℤ) (re : Option RemoteEntry) (r : Option ObservedEntry)
      → is_dir_at re ≡ false
      → apply_use_local b now source_id path
          (some (obs_file b bytes m))
          r
          (record { local = some (file_entry bytes m); remote = re })
        ≡ ok out
      → Quiet b source_id path later out × (out.sides.local ≡ some (file_entry bytes m))
  unfolding inspect_local observe_local_entry
  file_pushed bytes m re r f h =
      let (wrote, local_kept, stored) = file_outcome bytes m re r h in
      let entry : RemoteEntry = record { meta = b.written bytes; body = bytes } in
      let remote_now = written_remote b bytes re out.sides.remote f wrote in
      let token = pushed_token b bytes in
      (
        Quiet-at b source_id path later (obs_file b bytes m) (obs_remote b entry) out
            (ap (inspect_local b) local_kept)
            (ap (inspect_remote b) remote_now
              ∙ file_observed b lawful entry (lawful.written_file bytes))
            refl
            (stored
              ∙ ap (λ v. ready_record source_id path file (some (b.hash bytes)) v true) token),
        local_kept,
      )

  dir_outcome :
      (m : Option ℤ) (re : Option RemoteEntry) (r : Option ObservedEntry)
      → apply_use_local b now source_id path
          (some (obs_dir m))
          r
          (record { local = some (dir_entry m); remote = re })
        ≡ ok out
      → (create_remote b re ≡ ok out.sides.remote)
        × (out.sides.local ≡ some (dir_entry m))
        × (out.stored ≡ ready_record source_id path dir none none true)
  unfolding apply_use_local push_local_entry
  dir_outcome m re r h = ground arith

  dir_pushed :
      (m : Option ℤ) (re : Option RemoteEntry) (r : Option ObservedEntry)
      → is_file_at re ≡ false
      → apply_use_local b now source_id path
          (some (obs_dir m))
          r
          (record { local = some (dir_entry m); remote = re })
        ≡ ok out
      → Quiet b source_id path later out × (out.sides.local ≡ some (dir_entry m))
  unfolding inspect_local observe_local_entry
  dir_pushed m re r f h =
      let (made, local_kept, stored) = dir_outcome m re r h in
      let (entry, remote_now, is_dir') = created_remote b lawful re out.sides.remote f made in
      (
        Quiet-at b source_id path later (obs_dir m) (obs_dir entry.meta.mtime_ms) out
            (ap (inspect_local b) local_kept)
            (ap (inspect_remote b) remote_now ∙ dir_observed b lawful entry is_dir') refl stored,
        local_kept,
      )

  -- Of the remote entry, what was observed is deleted.
  cleared_remote :
      (r : Option ObservedEntry) (re : Option RemoteEntry)
      → inspect_remote b re ≡ ok r
      → clear_remote b r re ≡ none
  unfolding clear_remote delete_remote_entry
  cleared_remote none re h = remote_absent b re h
  cleared_remote (some r) re h =
      let (e, there, seen) = remote_seen b re r h in
      elim seen [
        | inl (is_file, same) ↦ ground (arith, there, is_file, same)
        | inr (is_dir', same) ↦ ground (arith, there, is_dir', same)
      ]

  pub local_used :
      (lo : Option LocalEntry) (re : Option RemoteEntry) (l r : Option ObservedEntry)
      → inspect_local b lo ≡ ok l
      → inspect_remote b re ≡ ok r
      → pushes_over_other use_local (record { local = lo; remote = re }) ≡ false
      → apply_use_local b now source_id path l r (record { local = lo; remote = re }) ≡ ok out
      → Quiet b source_id path later out × (out.sides.local ≡ lo)
  unfolding apply_use_local
  local_used lo re none r hl hr _ h =
      let local_kept : out.sides.local ≡ lo = ground (arith, h) in
      let remote_now : out.sides.remote ≡ clear_remote b r re = ground (arith, h) in
      (
        Quiet-absent b source_id path later out (local_kept ∙ local_absent b lo hl)
            (remote_now ∙ cleared_remote r re hr),
        local_kept,
      )
  local_used lo re (some l) r hl hr same_kind h =
      let over = λ (lo' : Option LocalEntry).
        pushes_over_other use_local (record { local = lo'; remote = re }) ≡ false in
      let run : ObservedEntry → Option LocalEntry → Result SyncError ResolveOutcome = λ l' lo'.
        apply_use_local b now source_id path (some l') r (record { local = lo'; remote = re }) in
      elim (local_seen b lo l hl) [
        | inl (bytes, m, there, same) ↦
            subst (λ lo'. Quiet b source_id path later out × (out.sides.local ≡ lo')) there
              (file_pushed bytes m re r (subst over (sym there) same_kind)
                (ap (λ l'. run l' (some (file_entry bytes m))) same ∙ ap (run l) there ∙ h))
        | inr (m, there, same) ↦
            subst (λ lo'. Quiet b source_id path later out × (out.sides.local ≡ lo')) there
              (dir_pushed m re r (subst over (sym there) same_kind)
                (ap (λ l'. run l' (some (dir_entry m))) same ∙ ap (run l) there ∙ h))
      ]
