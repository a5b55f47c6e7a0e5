-- ===== src/Core/ContentCache/Eviction.antt =====
-- `ContentCache::put`: the loop makes room, and gives up no path that it need not.
use section.Base.{
  ◌==◌, nat_eq, list_eq, ℕ, ◌+◌, ◌≤◌, ◌<◌, ◌≡◌, ◌⊎◌, inl, inr, refl, sym, ap, ◌∙◌, false, none,
  some, List, [], ◌∷◌, ◌++◌, arith, if◌then◌else◌, ==_iff, ==_refl, length, contains, Bool-cases,
  ltb,
}
use section.Base.Text.{Text}
use section.Base.HashMap
use section.Base.HashMap.{HashMap, get-remove, get-insert, contains_key}
use section.Core.ContentCache
use section.Core.ContentCache.{ContentCache, remove_from_order, pop_front, evict, put, Bytes}
use section.Core.ContentCache.Order.{byte_count, weight}
use section.Core.ContentCache.Invariant.{
  Consistent, remove-Consistent, remove-get, remove-max, pop_front-remove,
}

-- What making room for `n` bytes does to a cache.
pub record MadeRoom (n : ℕ) (c e : ContentCache) : Type 0 where
  pub agrees : Consistent e
  pub same_max : e.max_bytes ≡ c.max_bytes
  pub room : e.current_bytes + n ≤ c.max_bytes
  pub gone : List Text
  pub oldest : c.order ≡ gone ++ e.order
  pub kept :
      (k : Text)
      → HashMap.get e.entries k ≡ (if contains gone k then none else HashMap.get c.entries k)
  -- Without giving up the last of them there was no room.
  pub needed :
      ((gone ≡ []) × (e.current_bytes ≡ c.current_bytes))
      ⊎ ((g : List Text) × (k : Text) × (gone ≡ g ++ k ∷ [])
          × (c.max_bytes < e.current_bytes + byte_count (HashMap.get c.entries k) + n))

stays :
    (n : ℕ) (c : ContentCache) → Consistent c → c.current_bytes + n ≤ c.max_bytes → MadeRoom n c c
stays n c v h = record {
  agrees = v;
  same_max = refl;
  room = h;
  gone = [];
  oldest = refl;
  kept = λ k. refl;
  needed = inl (refl, refl);
}

remove_front :
    (c : ContentCache) (key : Text) (rest : List Text)
    → c.order ≡ key ∷ rest
    → Consistent c
    → ((ContentCache.remove c key).order ≡ rest)
      × (c.current_bytes
          ≡ byte_count (HashMap.get c.entries key) + (ContentCache.remove c key).current_bytes)
unfolding ContentCache.remove remove_from_order ContentCache.forget_entry
remove_front c key rest e v = ground (arith, v.listed key, ==_refl key, v.counted)

pops :
    (n : ℕ) (c e : ContentCache) (key : Text) (rest : List Text)
    → c.order ≡ key ∷ rest
    → Consistent c
    → c.max_bytes < c.current_bytes + n
    → MadeRoom n (ContentCache.remove c key) e
    → MadeRoom n c e
pops n c e key rest front v full m =
    let (order, bytes) = remove_front c key rest front v in
    record {
      agrees = m.agrees;
      same_max = m.same_max ∙ remove-max c key;
      room = omega (arith, m.room, remove-max c key);
      gone = key ∷ m.gone;
      oldest = rw front (ap (λ (ps : List Text). key ∷ ps) (sym order ∙ m.oldest));
      kept = λ k. ground (arith, m.kept k, remove-get c key k);
      needed = inr (elim m.needed [
        | inl (none_gone, same) ↦ ([], key, rw none_gone refl, omega (arith, full, bytes, same))
        | inr (g, k, whole, more) ↦
            (key ∷ g, k, rw whole refl, ground (arith, more, remove-get c key k, remove-max c key))
      ]);
    }

pub evict_lem :
    (n : ℕ) (c : ContentCache) (order : List Text)
    → c.order ≡ order
    → Consistent c
    → n ≤ c.max_bytes
    → MadeRoom n c (evict n c order)
unfolding evict
evict_lem n c [] e v h =
    let empty : c.current_bytes ≡ 0 = v.counted ∙ ap (weight c.entries) e in
    stays n c v (omega (arith, empty, h))
evict_lem n c (key ∷ rest) e v h = elim (Bool-cases (ltb c.max_bytes (c.current_bytes + n))) [
  | inr fits ↦ rw fits (stays n c v (ground arith))
  | inl full ↦
      let (order, bytes) = remove_front c key rest e v in
      let next =
        evict_lem n (ContentCache.remove c key) rest order (remove-Consistent c key v)
          (omega (arith, remove-max c key, h)) in
      rw (full, pop_front-remove c key rest v e)
        (pops n c (evict n (ContentCache.remove c key) rest) key rest e v (ground arith) next)
]

-- A content that fits into an empty cache is cached under its path, as the most recently used one.
-- The paths that lose their contents for it are the least recently used of the others: a front part
-- of the order without the path. Without giving up the last of them the bound would be passed. All
-- other paths keep their contents, and the bound holds.
pub put-makes_room :
    (c : ContentCache) (path : Text) (content : Bytes)
    → Consistent c
    → length content ≤ c.max_bytes
    → let others = ContentCache.remove c path in
      let c' = put c path content in
      (HashMap.get c'.entries path ≡ some content)
      × (c'.current_bytes ≤ c.max_bytes)
      × (gone : List Text) × (kept : List Text) × (others.order ≡ gone ++ kept)
      × (c'.order ≡ kept ++ path ∷ [])
      × ((k : Text)
          → HashMap.get c'.entries k ≡ (
              if path == k
              then some content
              else if contains gone k
              then none
              else HashMap.get c.entries k))
      × ((gone ≡ [])
          ⊎ ((g : List Text) × (k : Text) × (gone ≡ g ++ k ∷ [])
              × (c.max_bytes < c'.current_bytes + byte_count (HashMap.get others.entries k))))
unfolding put
put-makes_room c path content v h =
    let others = ContentCache.remove c path in
    let m =
      evict_lem (length content) others others.order refl (remove-Consistent c path v)
        (omega (arith, remove-max c path, h)) in
    let e = evict (length content) others others.order in
    let fits : ltb c.max_bytes (length content) ≡ false = ground arith in
    rw fits (
      ground (arith, get-insert e.entries path content path, ==_refl path),
      omega (arith, m.room, remove-max c path),
      m.gone,
      e.order,
      m.oldest,
      refl,
      (λ k. ground (
        arith,
        get-insert e.entries path content k,
        m.kept k,
        remove-get c path k,
        ==_iff path k,
      )),
      elim m.needed [
        | inl (nothing, same) ↦ inl nothing
        | inr (g, k, whole, more) ↦ inr (g, k, whole, omega (arith, more, remove-max c path))
      ],
    )
