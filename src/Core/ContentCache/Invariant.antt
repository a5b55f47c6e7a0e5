-- ===== src/Core/ContentCache/Invariant.antt =====
-- `ContentCache`: the order, the entries and the byte count agree, and the bound is kept.
use section.Core.ContentCache.{
  forget_entry, Bytes, ContentCache, remove_from_order, promote, pop_front, evict, put, remove_all,
  remove_prefix, clear, new,
}
use section.Base.{
  ◌≤◌, ◌≡◌, refl, true, false, Option, none, some, List, ◌∷◌, arith, if◌then◌else◌, ◌==◌, ==_iff,
  ==_refl, list_eq, nat_eq, contains,
}
use section.Base.Text.{Text}
use section.Base.HashMap
use section.Base.HashMap.{HashMap, get-remove, get-insert, contains_key, keys}
use section.Core.ContentCache
use section.Core.ContentCache.Order.{
  unique, weight, unique-remove, contains-remove, weight-remove, weight-split,
}

-- Each path stands once in the order, the paths in the order are those that have an entry, and
-- `current_bytes` is the number of bytes that the entries hold.
pub record Consistent (c : ContentCache) : Type 0 where
  pub once : unique c.order ≡ true
  pub listed : (k : Text) → contains c.order k ≡ contains_key c.entries k
  pub counted : c.current_bytes ≡ weight c.entries c.order

forget_entry-Consistent :
    (c : ContentCache) (path : Text) (held : Option Bytes)
    → HashMap.get c.entries path ≡ held
    → Consistent c
    → Consistent (forget_entry c path (remove_from_order c.order path) held)
unfolding forget_entry
forget_entry-Consistent c path none e v = v
forget_entry-Consistent c path (some b) e v =
    let there : contains c.order path ≡ true = ground (arith, v.listed path) in
    let cut = weight-split c.entries c.order path there in
    let gone : contains (remove_from_order c.order path) path ≡ false =
      ground (arith, contains-remove c.order path path v.once, ==_refl path) in
    record {
      once = unique-remove c.order path v.once;
      listed = λ k.
          ground
            (arith, contains-remove c.order path k v.once, v.listed k, get-remove c.entries path k);
      counted =
          ground
            (arith, v.counted, weight-remove c.entries (remove_from_order c.order path) path gone);
    }

pub remove-Consistent :
    (c : ContentCache) (path : Text) → Consistent c → Consistent (ContentCache.remove c path)
unfolding ContentCache.remove
remove-Consistent c path v = forget_entry-Consistent c path (HashMap.get c.entries path) refl v

-- A path that was removed has no place in the order.
pub remove-absent :
    (c : ContentCache) (path : Text)
    → Consistent c
    → contains (ContentCache.remove c path).order path ≡ false
unfolding ContentCache.remove forget_entry
remove-absent c path v =
    elim (HashMap.get c.entries path)
        as (λ held.
          HashMap.get c.entries path ≡ held
          → contains (forget_entry c path (remove_from_order c.order path) held).order path
            ≡ false) [
              | none ↦ λ e. ground (arith, v.listed path)
              | some b ↦ λ e. ground (arith, contains-remove c.order path path v.once, ==_refl path)
            ]
      refl

pub remove-get :
    (c : ContentCache) (path k : Text)
    → HashMap.get (ContentCache.remove c path).entries k
      ≡ (if path == k then none else HashMap.get c.entries k)
unfolding ContentCache.remove forget_entry
remove-get c path k =
    elim (HashMap.get c.entries path)
        as (λ held.
          HashMap.get c.entries path ≡ held
          → HashMap.get (forget_entry c path (remove_from_order c.order path) held).entries k
            ≡ (if path == k then none else HashMap.get c.entries k)) [
              | none ↦ λ e. ground (arith, ==_iff path k)
              | some b ↦ λ e. get-remove c.entries path k
            ]
      refl

pub remove-max :
    (c : ContentCache) (path : Text) → (ContentCache.remove c path).max_bytes ≡ c.max_bytes
unfolding ContentCache.remove forget_entry
remove-max c path = ground arith

pub remove-current :
    (c : ContentCache) (path : Text) → (ContentCache.remove c path).current_bytes ≤ c.current_bytes
unfolding ContentCache.remove forget_entry
remove-current c path = ground arith

-- Popping the front of the order is removing its path.
pub pop_front-remove :
    (c : ContentCache) (key : Text) (rest : List Text)
    → Consistent c
    → c.order ≡ key ∷ rest
    → pop_front c key rest ≡ ContentCache.remove c key
unfolding pop_front ContentCache.remove remove_from_order forget_entry
pop_front-remove c key rest v e = ground (arith, v.listed key, ==_refl key)
