-- ===== src/Tests/Inodes.antt =====
-- The inode table, at concrete files.
use section.Base.{if◌then◌else◌, ◌==◌, pair_eq, list_eq, nat_eq, ℕ, ◌≡◌, ◌⊎◌, none, some, arith}
use section.Base.Text.{Text, codes}
use section.Fuse.InodeTable
use section.Fuse.InodeTable.{
  InodeTable, InodeEntry, Stat, regular_file, root_ino, new, ensure, ensure_found, lookup,
  u64_modulus,
}
use section.Fuse.InodeTable.Links.{Linked, link}
use section.Fuse.InodeTable.Reached.{by_new, by_ensure, by_remove, reached-Linked, ensure-lookup}

abbrev stat : Stat
stat = record { kind = regular_file; perm = 420; size = 7; mtime = 100 }

abbrev first : InodeTable × ℕ
first = ensure 10 10 (new 10 10) root_ino (codes "a") (codes "s/a") stat

reached-Linked_example : Linked (InodeTable.remove first.0 2)
unfolding new
reached-Linked_example = reached-Linked 10 10 (InodeTable.remove first.0 2) (
    by_remove first.0 2 (omega arith)
      (by_ensure (new 10 10) root_ino (codes "a") (codes "s/a") stat (omega arith) by_new))

ensure-lookup_example :
    (lookup first.0 root_ino (codes "a") ≡ some first.1)
    × ((lookup (new 10 10) root_ino (codes "a") ≡ some first.1)
        ⊎ ((lookup (new 10 10) root_ino (codes "a") ≡ none)
            × (InodeTable.get (new 10 10) first.1 ≡ none)))
    × ((p : ℕ) (n : Text)
        → lookup first.0 p n ≡ (
            if link root_ino (codes "a") == link p n then some first.1 else lookup (new 10 10) p n))
    × (e : InodeEntry) × (InodeTable.get first.0 first.1 ≡ some e)
    × (e.parent ≡ root_ino)
    × (e.name ≡ codes "a")
    × (e.attr.kind ≡ regular_file)
    × (e.attr.perm ≡ 420)
    × (e.attr.size ≡ 7)
ensure-lookup_example =
    ensure-lookup 10 10 (new 10 10) root_ino (codes "a") (codes "s/a") stat
      (reached-Linked 10 10 (new 10 10) by_new)
