-- ===== src/Core/ContentCache.antt =====
-- `ContentCache` of crates/section-core/src/cache.rs: contents by path, at most `max_bytes` of
-- them, the least recently used given up first. The byte counts are of contents in memory, so
-- their sums stay below 2 ^ 64.
pub mod Order
pub mod Invariant
pub mod Eviction
pub mod Reached
use section.Base.{
  ℕ, zero, suc, ◌+◌, ◌-◌, Bool, true, false, Option, none, some, List, [], ◌∷◌, ◌++◌, if◌then◌else◌,
  ltb, ◌==◌, list_eq, nat_eq, length, filter,
}
use section.Base.Text.{Text}
use section.Base.HashMap
use section.Base.HashMap.{HashMap, keys, contains_key}
use section.Core.Paths.{path_matches_prefix}

abbrev pub Bytes : Type 0
Bytes = List ℕ

-- `order` runs from the least recently used path to the most recently used one.
pub record ContentCache : Type 0 where
  pub max_bytes : ℕ
  pub current_bytes : ℕ
  pub order : List Text
  pub entries : HashMap Text Bytes

unfoldable pub new : ℕ → ContentCache
new max_bytes = record { max_bytes = max_bytes; current_bytes = 0; order = []; entries = [] }

-- The list without the first place at which the path stands.
unfoldable pub remove_from_order : List Text → Text → List Text
remove_from_order [] path = []
remove_from_order (p ∷ ps) path =
    let rest = remove_from_order ps path in if p == path then ps else p ∷ rest

unfoldable pub promote : ContentCache → Text → ContentCache
unfolding remove_from_order
promote c path = record c { order = remove_from_order c.order path ++ path ∷ [] }

unfoldable pub get : ContentCache → Text → ContentCache × Option Bytes
unfolding promote
get c path =
    if contains_key c.entries path then (promote c path, HashMap.get c.entries path) else (c, none)

-- What follows the removal of the entry from the map, by what `HashMap::remove` returned.
unfoldable pub forget_entry : ContentCache → Text → List Text → Option Bytes → ContentCache
forget_entry c path order none = c
forget_entry c path order (some removed) = record {
  max_bytes = c.max_bytes;
  current_bytes = c.current_bytes - length removed;
  order = order;
  entries = HashMap.remove c.entries path;
}

unfoldable pub remove : ContentCache → Text → ContentCache
unfolding remove_from_order forget_entry
remove c path = forget_entry c path (remove_from_order c.order path) (HashMap.get c.entries path)

-- One turn of the loop that evicts: the path is the front of `order`, `rest` what follows it.
unfoldable pub pop_front : ContentCache → Text → List Text → ContentCache
unfolding forget_entry
pop_front c key rest = forget_entry (record c { order = rest }) key rest (HashMap.get c.entries key)

-- The loop, by the list that `order` is.
unfoldable pub evict : ℕ → ContentCache → List Text → ContentCache
unfolding pop_front
evict new_len c [] = c
evict new_len c (key ∷ rest) =
    let popped = evict new_len (pop_front c key rest) rest in
    if ltb c.max_bytes (c.current_bytes + new_len) then popped else c

unfoldable pub put : ContentCache → Text → Bytes → ContentCache
unfolding remove evict
put c path content =
    let c' = remove c path in
    let room = evict (length content) c' c'.order in
    if ltb c.max_bytes (length content) then c else record {
      max_bytes = room.max_bytes;
      current_bytes = room.current_bytes + length content;
      order = room.order ++ path ∷ [];
      entries = HashMap.insert room.entries path content;
    }

unfoldable pub remove_all : ContentCache → List Text → ContentCache
unfolding remove
remove_all c [] = c
remove_all c (key ∷ keys) = remove_all (remove c key) keys

unfoldable pub remove_prefix : ContentCache → Text → ContentCache
unfolding remove_all
remove_prefix c prefix =
    remove_all c (filter (λ path. path_matches_prefix path prefix) (keys c.entries))

unfoldable pub clear : ContentCache → ContentCache
clear c = record c { current_bytes = 0; order = []; entries = [] }

unfoldable pub size : ContentCache → ℕ
size c = c.current_bytes
