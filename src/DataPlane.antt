-- ===== src/DataPlane.antt =====
-- The data plane of sectiond, crates/sectiond/src/data_plane.rs: for each source a metadata cache and
-- a content cache, over those of Core. The router is left out: `new` takes the sources that it lists.
-- `M` is the metadata of the storage library, and the clock is an argument. Times to live are in the
-- unit of the clock, as many as a second has for each second of the configuration.
pub mod Forgets
use section.Base.{
  ℕ, ◌*◌, ◌≡◌, refl, sym, ap, ◌∙◌, Bool, true, false, ◌&&◌, ◌||◌, not, Option, none, some, List, [],
  ◌∷◌, arith, if◌then◌else◌, ltb, ◌==◌, list_eq, nat_eq, option_eq, Option-cases, inl, inr,
}
use mathlib.Core.Option
use section.Base.Text.{Text}
use section.Base.HashMap
use section.Base.HashMap.{HashMap}
use section.Core.Paths.{parent_dir, path_matches_prefix}
use section.Core.Router.{ParsedPath}
use section.Core.ContentCache
use section.Core.ContentCache.{ContentCache, Bytes}
use section.Core.MetadataCache
use section.Core.MetadataCache.{MetadataCache}

-- `get_mut` of a map, and a change of what it finds.
unfoldable pub modify : {C : Type 0} → HashMap Text C → Text → (C → C) → HashMap Text C
modify [] k f = []
modify ((j, c) ∷ m) k f = let rest = modify m k f in if j == k then (j, f c) ∷ m else (j, c) ∷ rest

unfoldable pub modify_all : {C : Type 0} → HashMap Text C → (C → C) → HashMap Text C
modify_all [] f = []
modify_all ((j, c) ∷ m) f = (j, f c) ∷ modify_all m f

pub record CacheConfig : Type 0 where
  pub metadata_ttl_secs : ℕ
  pub content_ttl_secs : ℕ

-- `DEFAULT_CONTENT_CACHE_MAX_BYTES`
abbrev pub default_content_cache_max_bytes : ℕ
default_content_cache_max_bytes = 67108864

pub record SectiondDataPlane (M : Type 0) : Type 0 where
  pub metadata_caches : HashMap Text (MetadataCache M)
  pub content_caches : HashMap Text ContentCache

-- A source without a configuration has these times.
abbrev pub ttl_of : Option CacheConfig → ℕ
ttl_of none = 60
ttl_of (some config) = config.metadata_ttl_secs

abbrev pub caches_content : Option CacheConfig → Bool
caches_content none = true
caches_content (some config) = ltb 0 config.content_ttl_secs

-- What a lookup finds in a cache that may not be there.
abbrev pub in_cache {ℓ} : {C : Type 0} {A : Type ℓ} → (C → Option A) → Option C → Option A
in_cache find none = none
in_cache find (some cache) = find cache

unfoldable pub forget_content : Bool → Text → ContentCache → ContentCache
unfolding ContentCache.remove ContentCache.remove_prefix
forget_content recursive path c =
    if recursive then ContentCache.remove_prefix c path else ContentCache.remove c path

module _ {M : Type 0} where
  -- The body of the loop of `new`, for one source.
  unfoldable pub add_source :
      ℕ → Text → Option CacheConfig → SectiondDataPlane M → SectiondDataPlane M
  unfolding HashMap.insert ContentCache.new
  add_source second source config d = record {
    metadata_caches =
        if ltb 0 (ttl_of config)
        then HashMap.insert d.metadata_caches source
            (MetadataCache.empty_cache (ttl_of config * second))
        else d.metadata_caches;
    content_caches =
        if caches_content config
        then HashMap.insert d.content_caches source
            (ContentCache.new default_content_cache_max_bytes)
        else d.content_caches;
  }

  unfoldable pub add_sources :
      ℕ → HashMap Text CacheConfig → List Text → SectiondDataPlane M → SectiondDataPlane M
  unfolding add_source HashMap.get
  add_sources second config [] d = d
  add_sources second config (source ∷ sources) d =
      add_sources second config sources (add_source second source (HashMap.get config source) d)

  unfoldable pub new : ℕ → HashMap Text CacheConfig → List Text → SectiondDataPlane M
  unfolding add_sources
  new second config sources =
      add_sources second config sources (record { metadata_caches = []; content_caches = [] })

  unfoldable pub cached_stat : ℕ → SectiondDataPlane M → ParsedPath → Option M
  unfolding HashMap.get MetadataCache.get_stat
  cached_stat now d parsed =
      in_cache (λ c. MetadataCache.get_stat now c parsed.sub_path)
        (HashMap.get d.metadata_caches parsed.source)

  unfoldable pub put_cached_stat : ℕ → SectiondDataPlane M → ParsedPath → M → SectiondDataPlane M
  unfolding modify MetadataCache.put_stat
  put_cached_stat now d parsed meta = record d {
    metadata_caches =
        modify d.metadata_caches parsed.source
          (λ c. MetadataCache.put_stat now c parsed.sub_path meta);
  }

  unfoldable pub cached_listing : ℕ → SectiondDataPlane M → ParsedPath → Option (List (Text × M))
  unfolding HashMap.get MetadataCache.get_listing
  cached_listing now d parsed =
      in_cache (λ c. MetadataCache.get_listing now c parsed.sub_path)
        (HashMap.get d.metadata_caches parsed.source)

  unfoldable pub put_cached_listing :
      ℕ → SectiondDataPlane M → ParsedPath → List (Text × M) → SectiondDataPlane M
  unfolding modify MetadataCache.put_listing
  put_cached_listing now d parsed entries = record d {
    metadata_caches =
        modify d.metadata_caches parsed.source
          (λ c. MetadataCache.put_listing now c parsed.sub_path entries);
  }

  -- The lookup makes the path the most recently used one.
  unfoldable pub cached_content :
      SectiondDataPlane M → ParsedPath → SectiondDataPlane M × Option Bytes
  unfolding modify HashMap.get ContentCache.get
  cached_content d parsed = (
    record d {
      content_caches =
          modify d.content_caches parsed.source (λ c. (ContentCache.get c parsed.sub_path).0);
    },
    in_cache (λ c. (ContentCache.get c parsed.sub_path).1)
        (HashMap.get d.content_caches parsed.source),
  )

  unfoldable pub put_cached_content : SectiondDataPlane M → ParsedPath → Bytes → SectiondDataPlane M
  unfolding modify ContentCache.put
  put_cached_content d parsed content = record d {
    content_caches =
        modify d.content_caches parsed.source (λ c. ContentCache.put c parsed.sub_path content);
  }

  unfoldable pub forget_metadata : Bool → Text → MetadataCache M → MetadataCache M
  unfolding MetadataCache.invalidate MetadataCache.invalidate_prefix
  forget_metadata recursive path c =
      MetadataCache.invalidate (if recursive then MetadataCache.invalidate_prefix c path else c)
        path

  unfoldable pub invalidate_metadata_path :
      SectiondDataPlane M → ParsedPath → Bool → SectiondDataPlane M
  unfolding modify forget_metadata
  invalidate_metadata_path d parsed recursive = record d {
    metadata_caches =
        modify d.metadata_caches parsed.source (forget_metadata recursive parsed.sub_path);
  }

  unfoldable pub invalidate_all_path : SectiondDataPlane M → ParsedPath → Bool → SectiondDataPlane M
  unfolding invalidate_metadata_path modify forget_content
  invalidate_all_path d parsed recursive =
      let d' = invalidate_metadata_path d parsed recursive in
      record d' {
        content_caches =
            modify d'.content_caches parsed.source (forget_content recursive parsed.sub_path);
      }

  unfoldable pub clear_all_caches : SectiondDataPlane M → SectiondDataPlane M
  unfolding modify_all MetadataCache.clear ContentCache.clear
  clear_all_caches d = record {
    metadata_caches = modify_all d.metadata_caches MetadataCache.clear;
    content_caches = modify_all d.content_caches ContentCache.clear;
  }
