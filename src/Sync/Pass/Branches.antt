-- ===== src/Sync/Pass/Branches.antt =====
-- What each plan that is not a conflict leaves: a state that the next pass finds settled.
use section.Base.{
  ◌≡◌, refl, sym, subst, Option, none, some, [], arith, ℤ, ok, inl, inr, string_eq, option_eq,
}
use section.Base.Text.{Text}
use section.Sync.Records.{file, dir, ObservedEntry}
use section.Sync.Backend.{
  Bytes, LocalEntry, file_entry, dir_entry, special_entry, RemoteEntry, Backend, IsLawful,
  inspect_local, inspect_remote, observe_local_entry, remote_file_version, or_else, file_mode,
  dir_mode,
}
use section.Sync.Coordinator.{
  PathSyncPlan, pull_ops, push_ops, pull_record_spec, push_record_spec, push, pull, drop_local,
  drop_remote,
}
use section.Sync.Transport.{
  Sides, execute, perform, pushed_version, delete_local_entry, delete_remote_entry,
}
use section.Sync.Pass.{finish, materialize_record}
use mathlib.Core.Path.{subst₂}
use section.Sync.Pass.Observed.{
  local_seen, remote_seen, obs_dir, obs_file, obs_remote, pushed_base, file_observed, dir_observed,
}
use section.Sync.Pass.Settled.{Settled, Settles, ready, by_ok, settled_at, settled_absent}

module _ (b : Backend) (lawful : IsLawful b) (source_id path : Text) (now later : ℤ) where
  abbrev pub After : Option LocalEntry → Option RemoteEntry → PathSyncPlan → Type 0
  After = Settles b source_id path later

  pub push_dir_new :
      (m : Option ℤ) → After (some (dir_entry m)) none (push now source_id path (obs_dir m))
  unfolding finish execute perform materialize_record push_ops push_record_spec inspect_local
      observe_local_entry
  push_dir_new m =
      let e : RemoteEntry = record { meta = b.created; body = [] } in
      let s : Sides = record { local = some (dir_entry m); remote = some e } in
      λ _.
        settled_at b source_id path later (obs_dir m) (obs_dir b.created.mtime_ms) s refl
          (dir_observed b lawful e lawful.created_dir) refl

  pub push_dir_old :
      (m : Option ℤ) (e : RemoteEntry)
      → e.meta.mode ≡ dir_mode
      → After (some (dir_entry m)) (some e) (push now source_id path (obs_dir m))
  unfolding finish execute perform materialize_record push_ops push_record_spec inspect_local
      observe_local_entry
  push_dir_old m e d =
      let s : Sides = record { local = some (dir_entry m); remote = some e } in
      by_ok b source_id path later (some (dir_entry m)) (some e)
        (push now source_id path (obs_dir m)) _ s (ground arith)
        (settled_at b source_id path later (obs_dir m) (obs_dir e.meta.mtime_ms) s refl
          (dir_observed b lawful e d) refl)

  pushed :
      (bytes : Bytes) (m : Option ℤ)
      → Settled b source_id path later
          (ready b source_id path later file
            (some (b.hash bytes))
            (or_else (pushed_version b bytes) (some (b.hash bytes))))
          (record {
            local = some (file_entry bytes m);
            remote = some (record { meta = b.written bytes; body = bytes });
          })
  unfolding inspect_local observe_local_entry
  pushed bytes m =
      let e : RemoteEntry = record { meta = b.written bytes; body = bytes } in
      let s : Sides = record { local = some (file_entry bytes m); remote = some e } in
      subst
        (λ v.
          Settled b source_id path later (ready b source_id path later file (some (b.hash bytes)) v)
            s)
        (sym (pushed_base b lawful bytes))
        (settled_at b source_id path later (obs_file b bytes m) (obs_remote b e) s refl
          (file_observed b lawful e (lawful.written_file bytes)) refl)

  pub push_file_new :
      (bytes : Bytes) (m : Option ℤ)
      → After (some (file_entry bytes m)) none (push now source_id path (obs_file b bytes m))
  unfolding finish execute perform materialize_record push_ops push_record_spec
  push_file_new bytes m = λ _. pushed bytes m

  pub push_file_old :
      (bytes : Bytes) (m : Option ℤ) (e : RemoteEntry)
      → e.meta.mode ≡ file_mode
      → After (some (file_entry bytes m)) (some e) (push now source_id path (obs_file b bytes m))
  unfolding finish execute perform materialize_record push_ops push_record_spec
  push_file_old bytes m e f =
      by_ok b source_id path later (some (file_entry bytes m)) (some e)
        (push now source_id path (obs_file b bytes m)) _ _ (ground arith) (pushed bytes m)

  -- What a pull of a file leaves.
  pub pulled :
      (e : RemoteEntry)
      → e.meta.mode ≡ file_mode
      → Settled b source_id path later
          (ready b source_id path later file
            (some (b.hash e.body))
            (some (remote_file_version b e)))
          (record { local = some (file_entry e.body b.touched); remote = some e })
  unfolding inspect_local observe_local_entry
  pulled e f =
      settled_at b source_id path later (obs_file b e.body b.touched) (obs_remote b e)
        (record { local = some (file_entry e.body b.touched); remote = some e }) refl
        (file_observed b lawful e f) refl

  pub pull_file_over :
      (lo : Option LocalEntry) (e : RemoteEntry)
      → e.meta.mode ≡ file_mode
      → After lo (some e) (pull now source_id path (obs_remote b e))
  unfolding finish execute perform materialize_record pull_ops pull_record_spec
  pull_file_over none e f = λ _. pulled e f
  pull_file_over (some (file_entry bytes m)) e f = λ _. pulled e f
  pull_file_over (some special_entry) e f = λ _. pulled e f
  pull_file_over (some (dir_entry m)) e f = tt

  pub pulled_dir :
      (m : Option ℤ) (e : RemoteEntry)
      → e.meta.mode ≡ dir_mode
      → Settled b source_id path later
          (ready b source_id path later dir none none)
          (record { local = some (dir_entry m); remote = some e })
  unfolding inspect_local observe_local_entry
  pulled_dir m e d =
      settled_at b source_id path later (obs_dir m) (obs_dir e.meta.mtime_ms)
        (record { local = some (dir_entry m); remote = some e }) refl (dir_observed b lawful e d)
        refl

  pub pull_dir_over :
      (lo : Option LocalEntry) (e : RemoteEntry)
      → e.meta.mode ≡ dir_mode
      → After lo (some e) (pull now source_id path (obs_dir e.meta.mtime_ms))
  unfolding finish execute perform materialize_record pull_ops pull_record_spec
  pull_dir_over none e d = λ _. pulled_dir b.touched e d
  pull_dir_over (some (dir_entry m)) e d = λ _. pulled_dir m e d
  pull_dir_over (some (file_entry bytes m)) e d = tt
  pull_dir_over (some special_entry) e d = tt

  pub drop_local_leaves :
      (lo : Option LocalEntry) (l : ObservedEntry)
      → inspect_local b lo ≡ ok (some l)
      → After lo none (drop_local now source_id path l)
  unfolding finish execute perform materialize_record delete_local_entry inspect_local
      inspect_remote
  drop_local_leaves lo l h =
      let gone : Sides = record { local = none; remote = none } in
      let settled = settled_absent b source_id path later gone refl refl in
      elim (local_seen b lo l h) [
        | inl (bytes, m, here, seen) ↦
            subst₂ (λ lo l. After lo none (drop_local now source_id path l)) here seen
              (λ _. settled)
        | inr (m, here, seen) ↦
            subst₂ (λ lo l. After lo none (drop_local now source_id path l)) here seen
              (λ _. settled)
      ]

  pub drop_remote_leaves :
      (re : Option RemoteEntry) (r : ObservedEntry)
      → inspect_remote b re ≡ ok (some r)
      → After none re (drop_remote now source_id path r)
  unfolding finish execute perform materialize_record delete_remote_entry inspect_local
      inspect_remote
  drop_remote_leaves re r h =
      let gone : Sides = record { local = none; remote = none } in
      let settled = settled_absent b source_id path later gone refl refl in
      let (e, here, seen) = remote_seen b re r h in
      elim seen [
        | inl (f, q) ↦
            subst₂ (λ re r. After none re (drop_remote now source_id path r)) here q
              (by_ok b source_id path later none (some e)
                (drop_remote now source_id path (obs_remote b e)) none gone (ground arith) settled)
        | inr (d, q) ↦
            subst₂ (λ re r. After none re (drop_remote now source_id path r)) here q
              (by_ok b source_id path later none (some e)
                (drop_remote now source_id path (obs_dir e.meta.mtime_ms)) none gone (ground arith)
                settled)
      ]
