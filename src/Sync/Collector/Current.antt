-- ===== src/Sync/Collector/Current.antt =====
-- When the collector observes what is really there: its records are current, and no inventory
-- manifest stands in for the listing.
use section.Base.{
  ℕ, ◌≡◌, ◌⊎◌, refl, ap, inl, inr, Option, none, some, String, ℤ, arith, length, Result, ok, err,
  ◌>>=◌, string_eq, option_eq, nat_eq,
}
use section.Sync.Records.{file, ObservedEntry}
use section.Sync.Backend.{
  Bytes, LocalEntry, file_entry, dir_entry, special_entry, RemoteEntry, SyncError, Backend,
  IsLawful, EntryMode, file_mode, dir_mode, unknown_mode, or_else, remote_file_token,
  remote_file_version, metadata_entry_kind, observe_local_entry, observe_remote_entry,
  inspect_local, inspect_remote,
}
use section.Sync.Transport.{Sides}
use section.Sync.Collector.{
  Scan, cached_local_version, cached_manifest_version, remote_metadata_size, version_or,
  stat_observation, observe_local_entry_with_cache, observe_remote_entry_with_manifest,
  collect_local, list_remote, collect_remote,
}

-- The version that a usable record gives is the one of what stands there.
pub record IsCurrent (b : Backend) (scan : Scan) (s : Sides) : Type 0 where
  pub local_version :
      (bytes : Bytes) (m : Option ℤ) (v : String)
      → s.local ≡ some (file_entry bytes m)
      → cached_local_version scan.cached (some (length bytes)) m ≡ some v
      → v ≡ b.hash bytes
  pub listed_version :
      (e : RemoteEntry) (v : String)
      → s.remote ≡ some e
      → cached_manifest_version scan.manifest
          (remote_metadata_size (b.listed e))
          (b.listed e).mtime_ms
        ≡ some v
      → v ≡ remote_file_version b e
  pub stat_version :
      (e : RemoteEntry) (v : String)
      → s.remote ≡ some e
      → cached_manifest_version scan.manifest (remote_metadata_size e.meta) e.meta.mtime_ms ≡ some v
      → v ≡ remote_file_version b e
  pub no_inventory : scan.inventory ≡ none

-- What the planner reads of an observation: the kind and the version.
abbrev pub seen : ObservedEntry → ObservedEntry
seen o = record { kind = o.kind; version = o.version; size = none; mtime_ms = none }

abbrev pub seen_at : Option ObservedEntry → Option ObservedEntry
seen_at none = none
seen_at (some o) = some (seen o)

abbrev pub seen_of :
    Result SyncError (Option ObservedEntry) → Result SyncError (Option ObservedEntry)
seen_of (err x) = err x
seen_of (ok o) = ok (seen_at o)

abbrev with_version : String → ObservedEntry
with_version v = record { kind = file; version = some v; size = none; mtime_ms = none }

-- A version that is the right one if it is there, and what is right otherwise.
seen-version_or :
    (o : Option String) (e : ObservedEntry) (size : Option ℕ) (mtime : Option ℤ) (right : String)
    → ((v : String) → o ≡ some v → v ≡ right)
    → (o ≡ none → seen e ≡ with_version right)
    → seen (version_or o e size mtime) ≡ with_version right
seen-version_or none e size mtime right f g = g refl
seen-version_or (some v) e size mtime right f g = ap with_version (f v refl)

or_else-right :
    (o : Option String) (right : String)
    → ((v : String) → o ≡ some v → v ≡ right)
    → or_else o (some right) ≡ some right
or_else-right none right f = refl
or_else-right (some v) right f = ap some (f v refl)

remote_file_version-none :
    (b : Backend) (e : RemoteEntry)
    → remote_file_token e.meta ≡ none
    → b.hash e.body ≡ remote_file_version b e
unfolding remote_file_version
remote_file_version-none b e h = ground (arith, h)

remote_file_version-some :
    (b : Backend) (e : RemoteEntry) (v : String)
    → remote_file_token e.meta ≡ some v
    → v ≡ remote_file_version b e
unfolding remote_file_version
remote_file_version-some b e v h = ground (arith, h)

mode_cases : (m : EntryMode) → (m ≡ file_mode) ⊎ ((m ≡ dir_mode) ⊎ (m ≡ unknown_mode))
mode_cases file_mode = inl refl
mode_cases dir_mode = inr (inl refl)
mode_cases unknown_mode = inr (inr refl)

module _ (b : Backend) (lawful : IsLawful b) (scan : Scan) (s : Sides)
    (current : IsCurrent b scan s) where
  stat-seen :
      (e : RemoteEntry)
      → s.remote ≡ some e
      → seen (stat_observation b scan.manifest e) ≡ with_version (remote_file_version b e)
  unfolding stat_observation
  stat-seen e here =
      let size = remote_metadata_size e.meta in
      seen-version_or (remote_file_token e.meta) _ size e.meta.mtime_ms (remote_file_version b e)
        (remote_file_version-some b e)
        (λ no_token.
          seen-version_or (cached_manifest_version scan.manifest size e.meta.mtime_ms) _ size
            e.meta.mtime_ms (remote_file_version b e) (λ v h. current.stat_version e v here h)
            (λ _. ap with_version (remote_file_version-none b e no_token)))

  listed_file-seen :
      (e : RemoteEntry)
      → s.remote ≡ some e
      → (b.listed e).mode ≡ file_mode
      → seen_of (list_remote b scan (some e)) ≡ ok (some (with_version (remote_file_version b e)))
  unfolding list_remote observe_remote_entry_with_manifest metadata_entry_kind
  listed_file-seen e here m =
      let size = remote_metadata_size (b.listed e) in
      let mtime = (b.listed e).mtime_ms in
      let q =
        seen-version_or (remote_file_token (b.listed e))
          (version_or (cached_manifest_version scan.manifest size mtime)
            (stat_observation b scan.manifest e) size mtime)
          size mtime (remote_file_version b e)
          (λ v h. remote_file_version-some b e v (ground (arith, h, lawful.listed_token e)))
          (λ _.
            seen-version_or (cached_manifest_version scan.manifest size mtime) _ size mtime
              (remote_file_version b e) (λ v h. current.listed_version e v here h)
              (λ _. stat-seen e here)) in
      rw (seen_of, m, ◌>>=◌) (ap (λ o. ok (some o)) q)

  listed-seen :
      (e : RemoteEntry)
      → s.remote ≡ some e
      → seen_of (list_remote b scan (some e)) ≡ seen_of (inspect_remote b (some e))
  unfolding list_remote observe_remote_entry_with_manifest inspect_remote observe_remote_entry
      metadata_entry_kind
  listed-seen e here = elim (mode_cases (b.listed e).mode) [
    | inl m ↦ ground (arith, listed_file-seen e here m, m, lawful.listed_mode e)
    | inr (inl m) ↦ ground (arith, m, lawful.listed_mode e)
    | inr (inr m) ↦ ground (arith, m, lawful.listed_mode e)
  ]

  pub collect_remote-seen :
      seen_of (collect_remote b scan s.remote) ≡ seen_of (inspect_remote b s.remote)
  unfolding collect_remote list_remote inspect_remote
  collect_remote-seen =
      elim s.remote
          as (λ re.
            (s.remote ≡ re) → seen_of (collect_remote b scan re) ≡ seen_of (inspect_remote b re)) [
              | none ↦ λ h. rw current.no_inventory refl
              | some e ↦ λ h. rw current.no_inventory (listed-seen e h)
            ]
        refl

  local-seen :
      (lo : Option LocalEntry)
      → s.local ≡ lo
      → seen_of (collect_local b scan lo) ≡ seen_of (inspect_local b lo)
  unfolding collect_local observe_local_entry_with_cache inspect_local observe_local_entry
  local-seen none h = refl
  local-seen (some (dir_entry m)) h = refl
  local-seen (some special_entry) h = refl
  local-seen (some (file_entry bytes m)) h =
      ap (λ v. ok (some (record { kind = file; version = v; size = none; mtime_ms = none })))
        (or_else-right (cached_local_version scan.cached (some (length bytes)) m) (b.hash bytes)
          (λ v q. current.local_version bytes m v h q))

  pub collect_local-seen :
      seen_of (collect_local b scan s.local) ≡ seen_of (inspect_local b s.local)
  collect_local-seen = local-seen s.local refl
