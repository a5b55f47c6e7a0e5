-- ===== src/Tests/Caches.antt =====
-- The caches, the router and the permissions, at concrete paths.
use section.Base.{
  not, ◌&&◌, ◌||◌, ℕ, ◌+◌, ◌%◌, ◌≤◌, ◌<◌, ◌≡◌, ◌⊎◌, refl, false, none, some, List, [], ◌∷◌, ◌++◌,
  arith, contains, if◌then◌else◌, ◌==◌, nat_eq, list_eq, option_eq, is_empty, is_ok,
}
use section.Base.Text.{Text, codes, slash, split, trim_matches}
use section.Base.Text.Segments.{is_prefix, Lacks}
use section.Base.HashMap
use section.Core.Paths.{path_matches_prefix, path_matches_prefix-components}
use section.Core.ContentCache
use section.Core.ContentCache.{ContentCache, Bytes, new, put, size, remove_prefix, evict}
use section.Core.ContentCache.Order.{byte_count}
use section.Core.ContentCache.Invariant.{Consistent}
use section.Core.ContentCache.Eviction.{put-makes_room}
use section.Core.ContentCache.Reached.{
  Reached, by_new, by_put, by_get, by_remove_prefix, reached-Consistent,
}
use section.Core.MetadataCache.{
  MetadataCache, empty_cache, get_stat, put_stat, get_listing, put_listing, invalidate_prefix,
  invalidate_prefix-get,
}
use section.Core.Router.{ParsedPath, parse_path, Router, parse_path-parts}
use section.Core.Permission.{
  Permission, OpenFlags, can_read, can_write, can_execute, has_bit, class_digit,
  ensure_open_allowed, rights-class_digit, ensure_open_allowed-rights,
}

abbrev a_path : Text
a_path = codes "a"

abbrev b_path : Text
b_path = codes "d/b"

path_matches_prefix-components_example : path_matches_prefix (codes "d/b/") (codes "/d") ≡ (
    is_empty (trim_matches slash (codes "/d"))
    || is_prefix
        (split slash (trim_matches slash (codes "/d")))
        (split slash (trim_matches slash (codes "d/b/"))))
path_matches_prefix-components_example = path_matches_prefix-components (codes "d/b/") (codes "/d")

-- A cache of five bytes at most that holds three under one path.
abbrev one_entry : ContentCache
one_entry = put (new 5) a_path (1 ∷ 2 ∷ 3 ∷ [])

abbrev one_entry_reached : Reached 5 one_entry
one_entry_reached = by_put (new 5) a_path (1 ∷ 2 ∷ 3 ∷ []) by_new

reached-Consistent_example :
    Consistent (remove_prefix (ContentCache.get one_entry a_path).0 (codes "d"))
    × ((remove_prefix (ContentCache.get one_entry a_path).0 (codes "d")).max_bytes ≡ 5)
    × (size (remove_prefix (ContentCache.get one_entry a_path).0 (codes "d")) ≤ 5)
reached-Consistent_example =
    reached-Consistent 5 (remove_prefix (ContentCache.get one_entry a_path).0 (codes "d")) (
      by_remove_prefix (ContentCache.get one_entry a_path).0 (codes "d")
        (by_get one_entry a_path one_entry_reached))

abbrev four_bytes : Bytes
four_bytes = 4 ∷ 5 ∷ 6 ∷ 7 ∷ []

one_entry_max : one_entry.max_bytes ≡ 5
one_entry_max = (reached-Consistent 5 one_entry one_entry_reached).1

put-makes_room_example :
    (HashMap.get (put one_entry b_path four_bytes).entries b_path ≡ some four_bytes)
    × ((put one_entry b_path four_bytes).current_bytes ≤ one_entry.max_bytes)
    × (gone : List Text) × (kept : List Text) × ((ContentCache.remove one_entry b_path).order
        ≡ gone ++ kept)
    × ((put one_entry b_path four_bytes).order ≡ kept ++ b_path ∷ [])
    × ((k : Text)
        → HashMap.get (put one_entry b_path four_bytes).entries k ≡ (
            if b_path == k
            then some four_bytes
            else if contains gone k
            then none
            else HashMap.get one_entry.entries k))
    × ((gone ≡ [])
        ⊎ ((g : List Text) × (k : Text) × (gone ≡ g ++ k ∷ [])
            × (one_entry.max_bytes
                < (put one_entry b_path four_bytes).current_bytes
                  + byte_count (HashMap.get (ContentCache.remove one_entry b_path).entries k))))
put-makes_room_example =
    put-makes_room one_entry b_path four_bytes (reached-Consistent 5 one_entry one_entry_reached).0
      (omega (arith, one_entry_max))

-- A cache of numbers in place of metadata, that keeps them for ten units of time.
abbrev stats : MetadataCache ℕ
stats = put_listing 3 (put_stat 3 (empty_cache 10) b_path 8) (codes "d") ((codes "b", 8) ∷ [])

invalidate_prefix-get_example :
    (get_stat 9 (invalidate_prefix stats (codes "d")) b_path
      ≡ (if path_matches_prefix b_path (codes "d") then none else get_stat 9 stats b_path))
    × (get_listing 9 (invalidate_prefix stats (codes "d")) b_path
        ≡ (if path_matches_prefix b_path (codes "d") then none else get_listing 9 stats b_path))
invalidate_prefix-get_example = invalidate_prefix-get 9 stats (codes "d") b_path

abbrev parsed : ParsedPath
parsed = record { source = codes "s3"; sub_path = codes "d/b" }

parse_path-parts_example :
    (is_empty (codes "s3") ≡ false)
    × Lacks slash (codes "s3")
    × (((codes "d/b" ≡ []) × (trim_matches slash (codes "/s3/d/b") ≡ codes "s3"))
        ⊎ (trim_matches slash (codes "/s3/d/b") ≡ codes "s3" ++ slash ∷ codes "d/b"))
unfolding parse_path
parse_path-parts_example = parse_path-parts (codes "/s3/d/b") parsed refl

abbrev no_sources : Router ℕ
no_sources = record { operators = [] }

abbrev permission : Permission
permission = record { uid = 5; gid = 6; mode = 416 }

abbrev user : ℕ
user = 7

rights-class_digit_example :
    (can_read permission user 6 ≡ (user == 0 || has_bit (class_digit permission user 6) 4))
    × (can_write permission user 6 ≡ (user == 0 || has_bit (class_digit permission user 6) 2))
    × (can_execute permission user 6 ≡ (user == 0 || has_bit (class_digit permission user 6) 1))
rights-class_digit_example = rights-class_digit permission user 6

-- The constants of Linux.
abbrev two : ℕ
two = 2

abbrev linux_flags : OpenFlags
linux_flags = record { access_mode = λ flags. flags % 4; o_rdonly = 0; o_wronly = 1; o_rdwr = 2 }

ensure_open_allowed-rights_example :
    is_ok (ensure_open_allowed linux_flags permission user 6 two) ≡ (
      (not (two == 0 || two == two) || can_read permission user 6)
      && (not (two == 1 || two == two) || can_write permission user 6))
ensure_open_allowed-rights_example =
    ensure_open_allowed-rights linux_flags permission user 6 two (refl, refl, refl)
