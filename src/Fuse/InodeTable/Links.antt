-- ===== src/Fuse/InodeTable/Links.antt =====
-- `InodeTable`: the lookups and the entries name the same inodes.
use section.Base.{
  ℕ, ◌+◌, ◌<◌, ◌≡◌, ◌≢◌, refl, sym, ap, ◌∙◌, true, none, some, [], ◌∷◌, ◌==◌, all, ltb, ==_iff,
  nat_eq, list_eq, pair_eq, arith, inl, inr, subst, Bool-cases, lt→ltb,
}
use section.Base.Text.{Text}
use section.Base.HashMap
use section.Base.HashMap.{
  HashMap, get-remove-some, get-remove-other, get-insert-same, get-insert-other, get-insert-some,
}
use section.Fuse.InodeTable
use section.Fuse.InodeTable.{
  InodeTable, InodeEntry, Stat, u64_modulus, root_ino, ensure, ensure_found, remove_entry,
  remove_all, new, lookup, refresh, refreshed, fresh_entry, root_entry, invalidate_children,
}

abbrev pub link : ℕ → Text → ℕ × Text
link p n = (p, n)

-- Inodes that have been given out are below the next one; a lookup leads to an entry with that
-- parent and name; and every entry but the root's is found by its parent and name.
pub record Linked (t : InodeTable) : Type 0 where
  pub given_out : (i : ℕ) (e : InodeEntry) → HashMap.get t.entries i ≡ some e → i < t.next_ino
  pub known :
      (p : ℕ) (n : Text) (i : ℕ)
      → HashMap.get t.lookup_map (p, n) ≡ some i
      → (root_ino < i)
        × (e : InodeEntry) × (HashMap.get t.entries i ≡ some e)
        × (e.parent ≡ p)
        × (e.name ≡ n)
  pub found :
      (i : ℕ) (e : InodeEntry)
      → HashMap.get t.entries i ≡ some e
      → root_ino < i
      → HashMap.get t.lookup_map (e.parent, e.name) ≡ some i
  pub past_root : root_ino < t.next_ino
  pub not_root : all (λ e. ltb root_ino e.1) t.lookup_map ≡ true

-- Two inodes of one table do not share the parent and the name.
one_link :
    (t : InodeTable) (i j : ℕ) (e d : InodeEntry)
    → Linked t
    → HashMap.get t.entries i ≡ some e
    → HashMap.get t.entries j ≡ some d
    → root_ino < i
    → root_ino < j
    → link e.parent e.name ≡ link d.parent d.name
    → i ≡ j
one_link t i j e d v g h p q same =
    let at = v.found i e g p in let there = v.found j d h q in cc (at, there, same)

all-remove :
    (m : HashMap (ℕ × Text) ℕ) (k : ℕ × Text)
    → all (λ e. ltb root_ino e.1) m ≡ true
    → all (λ e. ltb root_ino e.1) (HashMap.remove m k) ≡ true
unfolding HashMap.remove
all-remove [] k h = refl
all-remove ((j, i) ∷ m) k h = ground (arith, all-remove m k)

pub remove-Linked :
    (t : InodeTable) (ino : ℕ) → root_ino < ino → Linked t → Linked (InodeTable.remove t ino)
unfolding InodeTable.remove
remove-Linked t ino r v =
    elim (HashMap.get t.entries ino)
        as (λ o. HashMap.get t.entries ino ≡ o → Linked (remove_entry t ino o)) [
          | none ↦ λ h. v
          | some gone ↦ λ h. record {
            given_out = λ i e g. v.given_out i e (get-remove-some t.entries ino i e g).1;
            known = λ p n i g.
                let (apart, at) =
                  get-remove-some t.lookup_map (gone.parent, gone.name) (p, n) i g in
                let (late, e, here, up, called) = v.known p n i at in
                let other : ino ≢ i = λ same. apart (cc (same, here, h, up, called)) in
                (late, e, get-remove-other t.entries ino i other ∙ here, up, called);
            found = λ i e g late.
                let (other, here) = get-remove-some t.entries ino i e g in
                let apart : link gone.parent gone.name ≢ link e.parent e.name =
                  λ same. other (one_link t ino i gone e v h here r late same) in
                get-remove-other t.lookup_map (gone.parent, gone.name) (e.parent, e.name) apart
                ∙ v.found i e here late;
            past_root = v.past_root;
            not_root = all-remove t.lookup_map (gone.parent, gone.name) v.not_root;
          }
        ]
      refl

-- An entry that is put in place of one with the same parent and name.
pub refresh-Linked :
    (t : InodeTable) (ino : ℕ) (old e : InodeEntry)
    → Linked t
    → HashMap.get t.entries ino ≡ some old
    → e.parent ≡ old.parent
    → e.name ≡ old.name
    → Linked (record t { entries = HashMap.insert t.entries ino e })
refresh-Linked t ino old e v here up called = record {
  given_out = λ i d g. elim (get-insert-some t.entries ino e i d g) [
    | inl (same, q) ↦ subst (λ i. i < t.next_ino) same (v.given_out ino old here)
    | inr (apart, q) ↦ v.given_out i d q
  ];
  known = λ p n i g.
      let (late, d, at, u, c) = v.known p n i g in
      elim (Bool-cases (ino == i)) [
        | inl same ↦
            let equal = (==_iff ino i).0 same in
            let twin : old ≡ d = cc (here, at, equal) in
            (
              late,
              e,
              cc (get-insert-same t.entries ino e, equal),
              cc (up, twin, u),
              cc (called, twin, c),
            )
        | inr apart ↦
            let differ : ino ≢ i = λ same. ground (arith, (==_iff ino i).1 same, apart) in
            (late, d, get-insert-other t.entries ino e i differ ∙ at, u, c)
      ];
  found = λ i d g late. elim (get-insert-some t.entries ino e i d g) [
    | inl (same, q) ↦
        let before = v.found ino old here (subst (λ k. root_ino < k) (sym same) late) in
        let keys : link old.parent old.name ≡ link d.parent d.name = cc (up, called, q) in
        cc (before, keys, same)
    | inr (apart, q) ↦ v.found i d q late
  ];
  past_root = v.past_root;
  not_root = v.not_root;
}

-- A new entry for the next inode, under a parent and name that no lookup finds.
pub allocate-Linked :
    (t : InodeTable) (e : InodeEntry)
    → Linked t
    → HashMap.get t.lookup_map (link e.parent e.name) ≡ none
    → Linked (record {
      next_ino = t.next_ino + 1;
      entries = HashMap.insert t.entries t.next_ino e;
      lookup_map = HashMap.insert t.lookup_map (link e.parent e.name) t.next_ino;
    })
unfolding HashMap.insert
allocate-Linked t e v absent =
    let k = link e.parent e.name in
    record {
      given_out = λ i d g. elim (get-insert-some t.entries t.next_ino e i d g) [
        | inl (same, q) ↦ omega (arith, same)
        | inr (apart, q) ↦ omega (arith, v.given_out i d q)
      ];
      known = λ p n i g. elim (get-insert-some t.lookup_map k t.next_ino (link p n) i g) [
        | inl (same, q) ↦ (
          omega (arith, q, v.past_root),
          e,
          cc (get-insert-same t.entries t.next_ino e, q),
          ap (λ (l : ℕ × Text). l.0) same,
          ap (λ (l : ℕ × Text). l.1) same,
        )
        | inr (apart, q) ↦
            let (late, d, at, u, c) = v.known p n i q in
            let older = v.given_out i d at in
            (
              late,
              d,
              get-insert-other t.entries t.next_ino e i (λ same. omega (arith, same, older)) ∙ at,
              u,
              c,
            )
      ];
      found = λ i d g late. elim (get-insert-some t.entries t.next_ino e i d g) [
        | inl (same, q) ↦ let here = get-insert-same t.lookup_map k t.next_ino in cc (here, q, same)
        | inr (apart, q) ↦
            let before = v.found i d q late in
            let differ : k ≢ link d.parent d.name = λ same. cc (absent, before, same) in
            get-insert-other t.lookup_map k t.next_ino (link d.parent d.name) differ ∙ before
      ];
      past_root = omega (arith, v.past_root);
      not_root =
          let late : ltb root_ino t.next_ino ≡ true = lt→ltb root_ino t.next_ino v.past_root in
          rw late (all-remove t.lookup_map k v.not_root);
    }
