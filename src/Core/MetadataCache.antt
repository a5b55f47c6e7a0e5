-- ===== src/Core/MetadataCache.antt =====
-- `MetadataCache` of crates/section-core/src/cache.rs: `stat` results and directory listings that
-- expire. The clock is an argument, and `M` is the metadata that the backend returns.
use section.Base.{
  ℕ, ◌-◌, ◌≡◌, refl, not, ◌||◌, Option, none, some, List, [], arith, if◌then◌else◌, ltb, ◌==◌,
  list_eq, nat_eq, option_eq,
}
use section.Base.Text.{Text}
use section.Base.HashMap
use section.Base.HashMap.{HashMap, retain, get-remove, get-insert, get-retain}
use section.Core.Paths.{parent_dir, path_matches_prefix}

pub record CacheEntry (A : Type 0) : Type 0 where
  pub content : A
  pub inserted_at : ℕ

pub record MetadataCache (M : Type 0) : Type 0 where
  pub stats : HashMap Text (CacheEntry M)
  pub listings : HashMap Text (CacheEntry (List (Text × M)))
  pub ttl : ℕ

-- `entry.inserted_at.elapsed() < self.ttl`; the elapsed time stops at 0.
unfoldable pub fresh : {A : Type 0} → ℕ → ℕ → Option (CacheEntry A) → Option A
fresh ttl now none = none
fresh ttl now (some e) = if ltb (now - e.inserted_at) ttl then some e.content else none

module _ {M : Type 0} where
  abbrev pub empty_cache : ℕ → MetadataCache M
  empty_cache ttl = record { stats = []; listings = []; ttl = ttl }

  unfoldable pub get_stat : ℕ → MetadataCache M → Text → Option M
  unfolding fresh
  get_stat now c path = fresh c.ttl now (HashMap.get c.stats path)

  unfoldable pub put_stat : ℕ → MetadataCache M → Text → M → MetadataCache M
  put_stat now c path meta = record c {
    stats = HashMap.insert c.stats path (record { content = meta; inserted_at = now });
  }

  unfoldable pub get_listing : ℕ → MetadataCache M → Text → Option (List (Text × M))
  unfolding fresh
  get_listing now c path = fresh c.ttl now (HashMap.get c.listings path)

  unfoldable pub put_listing : ℕ → MetadataCache M → Text → List (Text × M) → MetadataCache M
  put_listing now c path entries = record c {
    listings = HashMap.insert c.listings path (record { content = entries; inserted_at = now });
  }

  abbrev remove_parent :
      HashMap Text (CacheEntry (List (Text × M)))
      → Option Text
      → HashMap Text (CacheEntry (List (Text × M)))
  remove_parent m none = m
  remove_parent m (some parent) = HashMap.remove m parent

  unfoldable pub invalidate : MetadataCache M → Text → MetadataCache M
  invalidate c path = record {
    stats = HashMap.remove c.stats path;
    listings = remove_parent (HashMap.remove c.listings path) (parent_dir path);
    ttl = c.ttl;
  }

  unfoldable pub invalidate_prefix : MetadataCache M → Text → MetadataCache M
  invalidate_prefix c prefix = record {
    stats = retain (λ k. not (path_matches_prefix k prefix)) c.stats;
    listings = retain (λ k. not (path_matches_prefix k prefix)) c.listings;
    ttl = c.ttl;
  }

  unfoldable pub clear : MetadataCache M → MetadataCache M
  clear c = record c { stats = []; listings = [] }

-- A `stat` result that was put is what is found for its path as long as less time than the time to
-- live has passed, and nothing is found later. What is found for the other paths, and the listings,
-- do not change.
pub put_stat-get :
    {M : Type 0} (now later : ℕ) (c : MetadataCache M) (path other : Text) (meta : M)
    → (get_stat later (put_stat now c path meta) other ≡ (
        if path == other
        then (if ltb (later - now) c.ttl then some meta else none)
        else get_stat later c other))
      × (get_listing later (put_stat now c path meta) other ≡ get_listing later c other)
unfolding get_stat put_stat get_listing fresh
put_stat-get now later c path other meta = (
  ground (arith, get-insert c.stats path (record { content = meta; inserted_at = now }) other),
  refl,
)

-- The same of the listings.
pub put_listing-get :
    {M : Type 0} (now later : ℕ) (c : MetadataCache M) (path other : Text)
    (entries : List (Text × M))
    → (get_listing later (put_listing now c path entries) other ≡ (
        if path == other
        then (if ltb (later - now) c.ttl then some entries else none)
        else get_listing later c other))
      × (get_stat later (put_listing now c path entries) other ≡ get_stat later c other)
unfolding get_listing put_listing get_stat fresh
put_listing-get now later c path other entries = (
  ground
      (arith, get-insert c.listings path (record { content = entries; inserted_at = now }) other),
  refl,
)

-- After `invalidate` no `stat` result is found for the path, and no listing for the path or for its
-- parent directory. All else is found as before.
pub invalidate-get :
    {M : Type 0} (now : ℕ) (c : MetadataCache M) (path other : Text)
    → (get_stat now (invalidate c path) other
        ≡ (if path == other then none else get_stat now c other))
      × (get_listing now (invalidate c path) other ≡ (
          if path == other || parent_dir path == some other then none else get_listing now c other))
unfolding get_stat get_listing invalidate fresh
invalidate-get now c path other = (
  ground (arith, get-remove c.stats path other),
  (elim (parent_dir path)
      as (λ parent.
        fresh c.ttl now (HashMap.get (remove_parent (HashMap.remove c.listings path) parent) other)
        ≡ (if path == other || parent == some other then none else get_listing now c other)) [
          | none ↦ ground (arith, get-remove c.listings path other)
          | some parent ↦ ground (
            arith,
            get-remove c.listings path other,
            get-remove (HashMap.remove c.listings path) parent other,
          )
        ]),
)

-- After `invalidate_prefix` nothing is found for a path that matches the prefix, and all else is
-- found as before.
pub invalidate_prefix-get :
    {M : Type 0} (now : ℕ) (c : MetadataCache M) (prefix path : Text)
    → (get_stat now (invalidate_prefix c prefix) path
        ≡ (if path_matches_prefix path prefix then none else get_stat now c path))
      × (get_listing now (invalidate_prefix c prefix) path
          ≡ (if path_matches_prefix path prefix then none else get_listing now c path))
unfolding get_stat get_listing invalidate_prefix fresh
invalidate_prefix-get now c prefix path = (
  ground (arith, get-retain (λ k. not (path_matches_prefix k prefix)) c.stats path),
  ground (arith, get-retain (λ k. not (path_matches_prefix k prefix)) c.listings path),
)
