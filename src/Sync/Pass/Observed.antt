-- ===== src/Sync/Pass/Observed.antt =====
-- What the two sides of a path look like once observed, and what an observation tells about the
-- entry behind it.
use section.Base.{
  length, ◌≡◌, ◌⊎◌, refl, Option, none, some, arith, ℤ, ok, inl, inr, string_eq, option_eq,
}
use section.Sync.Records.{file, dir, ObservedEntry}
use section.Sync.Backend.{
  Bytes, LocalEntry, file_entry, dir_entry, special_entry, RemoteEntry, Backend, IsLawful,
  inspect_local, inspect_remote, observe_local_entry, observe_remote_entry, remote_file_version,
  metadata_entry_kind, or_else, EntryMode, file_mode, dir_mode, unknown_mode,
}
use section.Sync.Transport.{pushed_version}

abbrev pub obs_dir : Option ℤ → ObservedEntry
obs_dir m = record { kind = dir; version = none; size = none; mtime_ms = m }

abbrev pub obs_file : Backend → Bytes → Option ℤ → ObservedEntry
obs_file b bytes m = record {
  kind = file;
  version = some (b.hash bytes);
  size = some (length bytes);
  mtime_ms = m;
}

abbrev pub obs_remote : Backend → RemoteEntry → ObservedEntry
obs_remote b e = record {
  kind = file;
  version = some (remote_file_version b e);
  size = some e.meta.content_length;
  mtime_ms = e.meta.mtime_ms;
}

module _ (b : Backend) (lawful : IsLawful b) where
  -- The version that a push stores as the base is the one that the next pass observes.
  pub pushed_base :
      (bytes : Bytes)
      → or_else (pushed_version b bytes) (some (b.hash bytes))
        ≡ some (remote_file_version b (record { meta = b.written bytes; body = bytes }))
  unfolding pushed_version remote_file_version
  pushed_base bytes = ground (arith, lawful.closed_token bytes)

  pub file_observed :
      (e : RemoteEntry)
      → e.meta.mode ≡ file_mode
      → inspect_remote b (some e) ≡ ok (some (obs_remote b e))
  unfolding inspect_remote observe_remote_entry metadata_entry_kind
  file_observed e h = ground arith

  pub dir_observed :
      (e : RemoteEntry)
      → e.meta.mode ≡ dir_mode
      → inspect_remote b (some e) ≡ ok (some (obs_dir e.meta.mtime_ms))
  unfolding inspect_remote observe_remote_entry metadata_entry_kind
  dir_observed e h = ground arith

-- What an observation tells about the entry that was observed.
module _ (b : Backend) where
  pub local_absent : (lo : Option LocalEntry) → inspect_local b lo ≡ ok none → lo ≡ none
  unfolding inspect_local observe_local_entry
  local_absent none h = refl
  local_absent (some (file_entry bytes m)) h = cc
  local_absent (some (dir_entry m)) h = cc
  local_absent (some special_entry) h = cc

  pub local_seen :
      (lo : Option LocalEntry) (l : ObservedEntry)
      → inspect_local b lo ≡ ok (some l)
      → ((bytes : Bytes) × (m : Option ℤ) × (some (file_entry bytes m) ≡ lo)
          × (obs_file b bytes m ≡ l))
        ⊎ ((m : Option ℤ) × (some (dir_entry m) ≡ lo) × (obs_dir m ≡ l))
  unfolding inspect_local observe_local_entry
  local_seen none l h = cc
  local_seen (some (file_entry bytes m)) l h = inl (bytes, m, refl, cc)
  local_seen (some (dir_entry m)) l h = inr (m, refl, cc)
  local_seen (some special_entry) l h = cc

  pub mode_cases : (m : EntryMode) → (m ≡ file_mode) ⊎ ((m ≡ dir_mode) ⊎ (m ≡ unknown_mode))
  mode_cases file_mode = inl refl
  mode_cases dir_mode = inr (inl refl)
  mode_cases unknown_mode = inr (inr refl)

  pub remote_absent : (re : Option RemoteEntry) → inspect_remote b re ≡ ok none → re ≡ none
  unfolding inspect_remote observe_remote_entry metadata_entry_kind
  remote_absent none h = refl
  remote_absent (some e) h = absurd (ground (arith, mode_cases e.meta.mode))

  pub remote_seen :
      (re : Option RemoteEntry) (r : ObservedEntry)
      → inspect_remote b re ≡ ok (some r)
      → (e : RemoteEntry) × (some e ≡ re)
        × (((e.meta.mode ≡ file_mode) × (obs_remote b e ≡ r))
            ⊎ ((e.meta.mode ≡ dir_mode) × (obs_dir e.meta.mtime_ms ≡ r)))
  unfolding inspect_remote observe_remote_entry metadata_entry_kind
  remote_seen none r h = cc
  remote_seen (some e) r h = (
    e,
    refl,
    elim (mode_cases e.meta.mode) [
      | inl f ↦ inl (f, ground arith)
      | inr (inl d) ↦ inr (d, ground arith)
      | inr (inr u) ↦ absurd (ground arith)
    ],
  )
