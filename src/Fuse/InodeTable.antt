-- ===== src/Fuse/InodeTable.antt =====
-- `InodeTable` of crates/section-fuse/src/inode.rs. The user, the group and the times are
-- arguments, and inode numbers are `u64`.
pub mod Links
pub mod Reached
use section.Base.{
  ℕ, ◌+◌, ◌*◌, ◌/◌, ◌%◌, Bool, true, false, not, ◌&&◌, ◌||◌, Option, none, some, List, [], ◌∷◌,
  if◌then◌else◌, ◌==◌, nat_eq, list_eq, pair_eq, filter, map,
}
use section.Base.Text.{Text}
use section.Base.HashMap
use section.Base.HashMap.{HashMap}

abbrev pub root_ino : ℕ
root_ino = 1

-- 2 ^ 64
abbrev pub u64_modulus : ℕ
u64_modulus = 18446744073709551616

-- `fuser::FileType`, as far as the program makes a difference.
pub data FileType : Type 0 where
  directory regular_file other_type : FileType

pub record FileAttr : Type 0 where
  pub ino : ℕ
  pub size : ℕ
  pub blocks : ℕ
  pub atime : ℕ
  pub mtime : ℕ
  pub ctime : ℕ
  pub crtime : ℕ
  pub kind : FileType
  pub perm : ℕ
  pub nlink : ℕ
  pub uid : ℕ
  pub gid : ℕ

pub record InodeEntry : Type 0 where
  pub path : Text
  pub parent : ℕ
  pub name : Text
  pub attr : FileAttr

pub record InodeTable : Type 0 where
  pub next_ino : ℕ
  pub entries : HashMap ℕ InodeEntry
  pub lookup_map : HashMap (ℕ × Text) ℕ

-- `size.div_ceil(512)`
abbrev pub blocks_of : ℕ → ℕ
blocks_of size = (size + 511) / 512

abbrev pub link_count : FileType → ℕ
link_count directory = 2
link_count _ = 1

abbrev pub root_entry : ℕ → ℕ → InodeEntry
root_entry uid gid = record {
  path = [];
  parent = root_ino;
  name = [];
  attr = record {
    ino = root_ino;
    size = 0;
    blocks = 0;
    atime = 0;
    mtime = 0;
    ctime = 0;
    crtime = 0;
    kind = directory;
    perm = 493;
    nlink = 2;
    uid = uid;
    gid = gid;
  };
}

unfoldable pub new : ℕ → ℕ → InodeTable
new uid gid = record {
  next_ino = 2;
  entries = HashMap.insert [] root_ino (root_entry uid gid);
  lookup_map = [];
}

unfoldable pub get : InodeTable → ℕ → Option InodeEntry
get t ino = HashMap.get t.entries ino

unfoldable pub lookup : InodeTable → ℕ → Text → Option ℕ
lookup t parent name = HashMap.get t.lookup_map (parent, name)

-- What `ensure` is told about the file.
pub record Stat : Type 0 where
  pub kind : FileType
  pub perm : ℕ
  pub size : ℕ
  pub mtime : ℕ

-- The update of an entry that is known.
abbrev pub refreshed : InodeEntry → Stat → InodeEntry
refreshed e s =
    let old = e.attr in
    record e {
      attr = record {
        ino = old.ino;
        size = s.size;
        blocks = blocks_of s.size;
        atime = s.mtime;
        mtime = s.mtime;
        ctime = old.ctime;
        crtime = old.crtime;
        kind = s.kind;
        perm = s.perm;
        nlink = old.nlink;
        uid = old.uid;
        gid = old.gid;
      };
    }

abbrev pub fresh_entry : ℕ → ℕ → ℕ → ℕ → Text → Text → Stat → InodeEntry
fresh_entry uid gid ino parent name path s = record {
  path = path;
  parent = parent;
  name = name;
  attr = record {
    ino = ino;
    size = s.size;
    blocks = blocks_of s.size;
    atime = s.mtime;
    mtime = s.mtime;
    ctime = s.mtime;
    crtime = s.mtime;
    kind = s.kind;
    perm = s.perm;
    nlink = link_count s.kind;
    uid = uid;
    gid = gid;
  };
}

-- `if let Some(entry) = self.entries.get_mut(&ino) { .. }`
abbrev pub refresh : HashMap ℕ InodeEntry → ℕ → Stat → Option InodeEntry → HashMap ℕ InodeEntry
refresh entries ino s none = entries
refresh entries ino s (some e) = HashMap.insert entries ino (refreshed e s)

-- The table and the inode, by what the lookup at the start of `ensure` found.
unfoldable pub ensure_found :
    ℕ → ℕ → InodeTable → ℕ → Text → Text → Stat → Option ℕ → InodeTable × ℕ
ensure_found uid gid t parent name path s (some ino) =
    (record t { entries = refresh t.entries ino s (HashMap.get t.entries ino) }, ino)
ensure_found uid gid t parent name path s none =
    let ino = t.next_ino in
    (
      record {
        next_ino = (t.next_ino + 1) % u64_modulus;
        entries = HashMap.insert t.entries ino (fresh_entry uid gid ino parent name path s);
        lookup_map = HashMap.insert t.lookup_map (parent, name) ino;
      },
      ino,
    )

unfoldable pub ensure : ℕ → ℕ → InodeTable → ℕ → Text → Text → Stat → InodeTable × ℕ
unfolding ensure_found
ensure uid gid t parent name path s =
    ensure_found uid gid t parent name path s (HashMap.get t.lookup_map (parent, name))

abbrev pub remove_entry : InodeTable → ℕ → Option InodeEntry → InodeTable
remove_entry t ino none = t
remove_entry t ino (some e) = record {
  next_ino = t.next_ino;
  entries = HashMap.remove t.entries ino;
  lookup_map = HashMap.remove t.lookup_map (e.parent, e.name);
}

unfoldable pub remove : InodeTable → ℕ → InodeTable
remove t ino = remove_entry t ino (HashMap.get t.entries ino)

unfoldable pub children : InodeTable → ℕ → List ℕ
children t parent = map (λ e. e.1) (filter (λ e. e.0.0 == parent) t.lookup_map)

unfoldable pub remove_all : InodeTable → List ℕ → InodeTable
unfolding remove
remove_all t [] = t
remove_all t (ino ∷ inos) = remove_all (remove t ino) inos

unfoldable pub invalidate_children : InodeTable → ℕ → InodeTable
unfolding children remove_all
invalidate_children t parent = remove_all t (children t parent)
