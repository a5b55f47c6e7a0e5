-- ===== src/Fuse/InodeTable/Reached.antt =====
-- `InodeTable`: what holds of every table that the operations lead to, and what `ensure` answers.
use section.Base.HashMap.{
  get-insert, HashMap, get-insert-same, get-insert-other, get-empty, get-insert-some,
}
use section.Base.{
  Bool-cases, if◌then◌else◌, ◌==◌, ==_iff, ℕ, ◌+◌, ◌%◌, ◌<◌, ◌≡◌, ◌⊎◌, refl, sym, Bool, true,
  Option, none, some, List, [], ◌∷◌, all, ltb, map, filter, nat_eq, list_eq, pair_eq, arith,
  Option-cases, inl, inr, ltb→lt, and_true,
}
use section.Base.Text.{Text}
use section.Base.HashMap
use section.Fuse.InodeTable
use section.Fuse.InodeTable.{
  InodeTable, InodeEntry, Stat, u64_modulus, root_ino, ensure, ensure_found, remove_all, new,
  lookup, refresh, refreshed, fresh_entry, root_entry, invalidate_children, children,
}
use section.Fuse.InodeTable.Links.{Linked, link, remove-Linked, refresh-Linked, allocate-Linked}

ensure_found-Linked :
    (uid gid : ℕ) (t : InodeTable) (parent : ℕ) (name path : Text) (s : Stat) (o : Option ℕ)
    → HashMap.get t.lookup_map (link parent name) ≡ o
    → t.next_ino + 1 < u64_modulus
    → Linked t
    → Linked (ensure_found uid gid t parent name path s o).0
unfolding ensure_found
ensure_found-Linked uid gid t parent name path s none h b v =
    let next : (t.next_ino + 1) % u64_modulus ≡ t.next_ino + 1 = omega (arith, b) in
    rw next (allocate-Linked t (fresh_entry uid gid t.next_ino parent name path s) v h)
ensure_found-Linked uid gid t parent name path s (some ino) h b v =
    let (late, e, at, up, called) = v.known parent name ino h in
    rw at (refresh-Linked t ino e (refreshed e s) v at refl refl)

pub ensure-Linked :
    (uid gid : ℕ) (t : InodeTable) (parent : ℕ) (name path : Text) (s : Stat)
    → t.next_ino + 1 < u64_modulus
    → Linked t
    → Linked (ensure uid gid t parent name path s).0
unfolding ensure
ensure-Linked uid gid t parent name path s b v =
    ensure_found-Linked uid gid t parent name path s _ refl b v

remove_all-Linked :
    (t : InodeTable) (inos : List ℕ)
    → all (ltb root_ino) inos ≡ true
    → Linked t
    → Linked (remove_all t inos)
unfolding remove_all
remove_all-Linked t [] h v = v
remove_all-Linked t (ino ∷ inos) h v =
    let (late, rest) = and_true (ltb root_ino ino) (all (ltb root_ino) inos) h in
    remove_all-Linked (InodeTable.remove t ino) inos rest
      (remove-Linked t ino (ltb→lt root_ino ino late) v)

children_not_root :
    (p : (ℕ × Text) × ℕ → Bool) (m : HashMap (ℕ × Text) ℕ)
    → all (λ e. ltb root_ino e.1) m ≡ true
    → all (ltb root_ino) (map (λ e. e.1) (filter p m)) ≡ true
children_not_root p [] h = refl
children_not_root p (e ∷ m) h = ground (arith, children_not_root p m)

-- The tables that the operations lead to while inode numbers last; the root is never removed.
pub data Reached (uid gid : ℕ) : InodeTable → Type 0 where
  by_new : Reached uid gid (new uid gid)
  by_ensure :
      (t : InodeTable) (parent : ℕ) (name path : Text) (s : Stat)
      → t.next_ino + 1 < u64_modulus
      → Reached uid gid t
      → Reached uid gid (ensure uid gid t parent name path s).0
  by_remove :
      (t : InodeTable) (ino : ℕ)
      → root_ino < ino
      → Reached uid gid t
      → Reached uid gid (InodeTable.remove t ino)
  by_invalidate :
      (t : InodeTable) (parent : ℕ)
      → Reached uid gid t
      → Reached uid gid (invalidate_children t parent)

only_root :
    (e d : InodeEntry) (i : ℕ)
    → HashMap.get (HashMap.insert [] root_ino d) i ≡ some e
    → i ≡ root_ino
unfolding HashMap.get
only_root e d i h = elim (get-insert-some [] root_ino d i e h) [
  | inl (same, q) ↦ sym same
  | inr (apart, q) ↦ absurd cc
]

new-Linked : (uid gid : ℕ) → Linked (new uid gid)
unfolding new HashMap.get
new-Linked uid gid = record {
  given_out = λ i e g. let at = only_root e (root_entry uid gid) i g in omega (arith, at);
  known = λ p n i g. absurd cc;
  found = λ i e g late.
      let at = only_root e (root_entry uid gid) i g in absurd (omega (arith, at, late));
  past_root = omega arith;
  not_root = refl;
}

-- In every table that the operations lead to, a lookup leads to an entry with that parent and name,
-- every entry but the root's is found by its parent and name, and the next inode is in use nowhere.
pub reached-Linked : (uid gid : ℕ) (t : InodeTable) → Reached uid gid t → Linked t
unfolding invalidate_children children
reached-Linked uid gid t by_new = new-Linked uid gid
reached-Linked uid gid t (by_ensure d parent name path s b r) =
    ensure-Linked uid gid d parent name path s b (reached-Linked uid gid d r)
reached-Linked uid gid t (by_remove d ino late r) =
    remove-Linked d ino late (reached-Linked uid gid d r)
reached-Linked uid gid t (by_invalidate d parent r) =
    let v = reached-Linked uid gid d r in
    remove_all-Linked d (children d parent)
      (children_not_root (λ e. e.0.0 == parent) d.lookup_map v.not_root) v

-- Putting in front of a map what it holds changes no lookup.
found_there :
    (m : HashMap (ℕ × Text) ℕ) (k j : ℕ × Text) (i : ℕ)
    → HashMap.get m k ≡ some i
    → HashMap.get m j ≡ (if k == j then some i else HashMap.get m j)
found_there m k j i h = elim (Bool-cases (k == j)) [
  | inl same ↦ rw (same, ← (==_iff k j).0 same) h
  | inr apart ↦ rw apart refl
]

-- What `ensure` answers is what the table then finds under the parent and name. If the table found
-- an inode there before, it is that one, and else it is one that had no entry. All other lookups
-- find what they found before, and the entry has the kind, the mode and the size that were given.
pub ensure-lookup :
    (uid gid : ℕ) (t : InodeTable) (parent : ℕ) (name path : Text) (s : Stat)
    → Linked t
    → let (t', ino) = ensure uid gid t parent name path s in
      (lookup t' parent name ≡ some ino)
      × ((lookup t parent name ≡ some ino)
          ⊎ ((lookup t parent name ≡ none) × (InodeTable.get t ino ≡ none)))
      × ((p : ℕ) (n : Text)
          → lookup t' p n ≡ (if link parent name == link p n then some ino else lookup t p n))
      × (e : InodeEntry) × (InodeTable.get t' ino ≡ some e)
      × (e.parent ≡ parent)
      × (e.name ≡ name)
      × (e.attr.kind ≡ s.kind)
      × (e.attr.perm ≡ s.perm)
      × (e.attr.size ≡ s.size)
unfolding ensure ensure_found lookup InodeTable.get
ensure-lookup uid gid t parent name path s v =
    elim (Option-cases (HashMap.get t.lookup_map (link parent name))) [
      | inr (ino, h) ↦
          let (late, e, at, up, called) = v.known parent name ino h in
          rw h (
            h,
            inl refl,
            (λ p n. found_there t.lookup_map (link parent name) (link p n) ino h),
            refreshed e s,
            rw at (get-insert-same t.entries ino (refreshed e s)),
            up,
            called,
            refl,
            refl,
            refl,
          )
      | inl h ↦
          let free : HashMap.get t.entries t.next_ino ≡ none =
            elim (Option-cases (HashMap.get t.entries t.next_ino)) [
              | inl none_there ↦ none_there
              | inr (e, at) ↦ absurd (omega (arith, v.given_out t.next_ino e at))
            ] in
          rw h (
            get-insert-same t.lookup_map (link parent name) t.next_ino,
            inr (refl, free),
            (λ p n. get-insert t.lookup_map (link parent name) t.next_ino (link p n)),
            fresh_entry uid gid t.next_ino parent name path s,
            get-insert-same t.entries t.next_ino
                (fresh_entry uid gid t.next_ino parent name path s),
            refl,
            refl,
            refl,
            refl,
            refl,
          )
    ]
