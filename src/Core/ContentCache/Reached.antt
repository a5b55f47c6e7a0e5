-- ===== src/Core/ContentCache/Reached.antt =====
-- `ContentCache`: what holds of every cache that the operations can lead to.
use section.Base.{
  ℕ, ◌≤◌, ◌≡◌, inl, inr, refl, ◌∙◌, Bool, true, false, ◌&&◌, none, List, [], ◌∷◌, ◌++◌, arith,
  if◌then◌else◌, ==_iff, ==_refl, list_eq, nat_eq, length, contains, Bool-cases, ltb, is_some,
  filter,
}
use section.Base.Text.{Text}
use section.Base.HashMap
use section.Base.HashMap.{HashMap, get-remove, get-insert, contains_key, keys}
use section.Core.Paths.{path_matches_prefix}
use section.Core.ContentCache
use section.Core.ContentCache.{
  ContentCache, remove_from_order, promote, put, Bytes, new, clear, remove_all, remove_prefix, size,
}
use section.Core.ContentCache.Order.{
  unique-push, contains-append, weight-append, weight-insert, unique-remove, contains-remove,
  weight-split,
}
use section.Core.ContentCache.Invariant.{
  Consistent, remove-Consistent, remove-absent, remove-get, remove-max, remove-current,
}
use section.Core.ContentCache.Eviction.{evict_lem}

-- The caches that the operations lead to from an empty one.
pub data Reached (max : ℕ) : ContentCache → Type 0 where
  by_new : Reached max (new max)
  by_get :
      (c : ContentCache) (path : Text) → Reached max c → Reached max (ContentCache.get c path).0
  by_put :
      (c : ContentCache) (path : Text) (content : Bytes)
      → Reached max c
      → Reached max (put c path content)
  by_remove :
      (c : ContentCache) (path : Text) → Reached max c → Reached max (ContentCache.remove c path)
  by_remove_prefix :
      (c : ContentCache) (prefix : Text) → Reached max c → Reached max (remove_prefix c prefix)
  by_clear : (c : ContentCache) → Reached max c → Reached max (clear c)

promote-Consistent :
    (c : ContentCache) (path : Text)
    → contains_key c.entries path ≡ true
    → Consistent c
    → Consistent (promote c path)
unfolding promote
promote-Consistent c path there v =
    let cut = remove_from_order c.order path in
    let gone : contains cut path ≡ false =
      ground (arith, contains-remove c.order path path v.once, ==_refl path) in
    record {
      once = unique-push cut path (unique-remove c.order path v.once) gone;
      listed = λ k. ground (
        arith,
        contains-append cut (path ∷ []) k,
        contains-remove c.order path k v.once,
        v.listed k,
        ==_iff path k,
        there,
      );
      counted = ground (
        arith,
        weight-append c.entries cut (path ∷ []),
        v.counted,
        weight-split c.entries c.order path (v.listed path ∙ there),
      );
    }

get-Consistent :
    (c : ContentCache) (path : Text) → Consistent c → Consistent (ContentCache.get c path).0
unfolding ContentCache.get
get-Consistent c path v = elim (Bool-cases (contains_key c.entries path)) [
  | inl there ↦ rw there (promote-Consistent c path there v)
  | inr absent ↦ rw absent v
]

get-max : (c : ContentCache) (path : Text) → (ContentCache.get c path).0.max_bytes ≡ c.max_bytes
unfolding ContentCache.get promote
get-max c path = ground arith

get-current :
    (c : ContentCache) (path : Text) → (ContentCache.get c path).0.current_bytes ≡ c.current_bytes
unfolding ContentCache.get promote
get-current c path = ground arith

abbrev Good : ℕ → ContentCache → Type 0
Good max c = Consistent c × (c.max_bytes ≡ max) × (size c ≤ max)

put-Good :
    (max : ℕ) (c : ContentCache) (path : Text) (content : Bytes)
    → Good max c
    → Good max (put c path content)
unfolding put size
put-Good max c path content (v, same, bound) =
    elim (Bool-cases (ltb c.max_bytes (length content))) [
      | inl big ↦ rw big (v, same, bound)
      | inr fits ↦
          let others = ContentCache.remove c path in
          let e = ContentCache.evict (length content) others others.order in
          let m =
            evict_lem (length content) others others.order refl (remove-Consistent c path v)
              (ground (arith, remove-max c path)) in
          let absent : contains e.order path ≡ false =
            ground (arith, remove-absent c path v, m.oldest, contains-append m.gone e.order path) in
          rw fits (
            record {
              once = unique-push e.order path m.agrees.once absent;
              listed = λ k. ground (
                arith,
                contains-append e.order (path ∷ []) k,
                m.agrees.listed k,
                get-insert e.entries path content k,
              );
              counted = ground (
                arith,
                weight-append (HashMap.insert e.entries path content) e.order (path ∷ []),
                weight-insert e.entries e.order path content absent,
                m.agrees.counted,
                get-insert e.entries path content path,
                ==_refl path,
              );
            },
            omega (arith, m.same_max, remove-max c path, same),
            omega (arith, m.room, remove-max c path, same),
          )
    ]

remove-Good :
    (max : ℕ) (c : ContentCache) (path : Text) → Good max c → Good max (ContentCache.remove c path)
unfolding size
remove-Good max c path (v, same, bound) = (
  remove-Consistent c path v,
  remove-max c path ∙ same,
  omega (arith, remove-current c path, bound),
)

remove_all-Good :
    (max : ℕ) (c : ContentCache) (ks : List Text) → Good max c → Good max (remove_all c ks)
unfolding remove_all
remove_all-Good max c [] g = g
remove_all-Good max c (k ∷ ks) g =
    remove_all-Good max (ContentCache.remove c k) ks (remove-Good max c k g)

-- In every cache that the operations lead to, each path stands once in the order, the order lists
-- exactly the paths with a content, the size is the number of bytes of these contents, and it is at
-- most the maximum.
pub reached-Consistent :
    (max : ℕ) (c : ContentCache)
    → Reached max c
    → Consistent c × (c.max_bytes ≡ max) × (size c ≤ max)
unfolding size new clear remove_prefix HashMap.get
reached-Consistent max c by_new =
    (record { once = refl; listed = λ k. refl; counted = refl }, refl, omega arith)
reached-Consistent max c (by_get d path r) =
    let (v, same, bound) = reached-Consistent max d r in
    (get-Consistent d path v, get-max d path ∙ same, omega (arith, get-current d path, bound))
reached-Consistent max c (by_put d path content r) =
    put-Good max d path content (reached-Consistent max d r)
reached-Consistent max c (by_remove d path r) = remove-Good max d path (reached-Consistent max d r)
reached-Consistent max c (by_remove_prefix d prefix r) =
    remove_all-Good max d (filter (λ path. path_matches_prefix path prefix) (keys d.entries))
      (reached-Consistent max d r)
reached-Consistent max c (by_clear d r) =
    let (v, same, bound) = reached-Consistent max d r in
    (record { once = refl; listed = λ k. refl; counted = refl }, same, omega arith)

remove_all-get :
    (c : ContentCache) (ks : List Text) (k : Text)
    → HashMap.get (remove_all c ks).entries k
      ≡ (if contains ks k then none else HashMap.get c.entries k)
unfolding remove_all
remove_all-get c [] k = refl
remove_all-get c (j ∷ ks) k =
    ground (arith, remove_all-get (ContentCache.remove c j) ks k, remove-get c j k)

contains-keys :
    (p : Text → Bool) (m : HashMap Text Bytes) (k : Text)
    → contains (filter p (keys m)) k ≡ (contains_key m k && p k)
unfolding HashMap.get
contains-keys p [] k = refl
contains-keys p ((j, b) ∷ m) k = ground (arith, contains-keys p m k, ==_iff j k)

-- `remove_prefix` takes away the contents of the paths that match the prefix, and of no other.
pub remove_prefix-get :
    (c : ContentCache) (prefix path : Text)
    → HashMap.get (remove_prefix c prefix).entries path
      ≡ (if path_matches_prefix path prefix then none else HashMap.get c.entries path)
unfolding remove_prefix
remove_prefix-get c prefix path = ground (
  arith,
  remove_all-get c (filter (λ p. path_matches_prefix p prefix) (keys c.entries)) path,
  contains-keys (λ p. path_matches_prefix p prefix) c.entries path,
)

-- `get` returns the content that the path has, keeps the contents of all paths, and makes the path,
-- if it has one, the most recently used: it moves to the end of the order.
pub get-promotes :
    (c : ContentCache) (path : Text)
    → let (c', found) = ContentCache.get c path in
      (found ≡ HashMap.get c.entries path)
      × (c'.entries ≡ c.entries)
      × (c'.order
          ≡ (if is_some found then remove_from_order c.order path ++ path ∷ [] else c.order))
unfolding ContentCache.get promote
get-promotes c path = ground arith
