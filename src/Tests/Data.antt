-- ===== src/Tests/Data.antt =====
-- The data plane of sectiond at concrete paths.
use section.Base.{ℕ, ◌≡◌, refl, true, none, some, [], ◌∷◌, list_eq, nat_eq, option_eq}
use section.Base.Text.{codes}
use section.Base.HashMap
use section.Core.Paths.{path_matches_prefix}
use section.Core.Router.{ParsedPath}
use section.DataPlane.{
  SectiondDataPlane, new, cached_stat, put_cached_stat, put_cached_content, invalidate_all_path,
}

abbrev file : ParsedPath
file = record { source = codes "s3"; sub_path = codes "d/b" }

abbrev directory : ParsedPath
directory = record { source = codes "s3"; sub_path = codes "d" }

-- No configuration for the source, so it has both caches.
abbrev filled : SectiondDataPlane ℕ
unfolding new put_cached_stat put_cached_content
filled =
    put_cached_content (put_cached_stat 3 (new 1 [] (codes "s3" ∷ [])) file 8) file (1 ∷ 2 ∷ [])

filled_stat : cached_stat 9 filled file ≡ some 8
unfolding cached_stat new put_cached_stat put_cached_content
filled_stat = refl

forgotten_stat : cached_stat 9 (invalidate_all_path filled directory true) file ≡ none
unfolding cached_stat new put_cached_stat put_cached_content invalidate_all_path HashMap.remove
    path_matches_prefix
forgotten_stat = refl
