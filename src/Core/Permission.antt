-- ===== src/Core/Permission.antt =====
-- `Permission` of crates/section-core/src/permission.rs and the checks of
-- crates/sectiond/src/permission.rs that use it. `mode & m != 0` for one bit `m` is `has_bit`.
use section.Base.{
  ==_iff, ℕ, ◌/◌, ◌%◌, ◌≡◌, Bool, true, false, not, ◌&&◌, ◌||◌, arith, if◌then◌else◌, ◌==◌, nat_eq,
  Result, ok, err, is_ok,
}

-- The bit with the weight `m`, a power of two.
unfoldable pub has_bit : ℕ → ℕ → Bool
has_bit mode m = not ((mode / m) % 2 == 0)

pub record Permission : Type 0 where
  pub uid : ℕ
  pub gid : ℕ
  pub mode : ℕ

-- 0o750 and 0o640
abbrev pub account_root : ℕ → ℕ → Permission
account_root uid gid = record { uid = uid; gid = gid; mode = 488 }

abbrev pub default_file : ℕ → ℕ → Permission
default_file uid gid = record { uid = uid; gid = gid; mode = 416 }

abbrev pub default_dir : ℕ → ℕ → Permission
default_dir uid gid = record { uid = uid; gid = gid; mode = 488 }

unfoldable pub can_read : Permission → ℕ → ℕ → Bool
unfolding has_bit
can_read p uid gid =
    if uid == 0
    then true
    else if uid == p.uid
    then has_bit p.mode 256
    else if gid == p.gid
    then has_bit p.mode 32
    else has_bit p.mode 4

unfoldable pub can_write : Permission → ℕ → ℕ → Bool
unfolding has_bit
can_write p uid gid =
    if uid == 0
    then true
    else if uid == p.uid
    then has_bit p.mode 128
    else if gid == p.gid
    then has_bit p.mode 16
    else has_bit p.mode 2

unfoldable pub can_execute : Permission → ℕ → ℕ → Bool
unfolding has_bit
can_execute p uid gid =
    if uid == 0
    then true
    else if uid == p.uid
    then has_bit p.mode 64
    else if gid == p.gid
    then has_bit p.mode 8
    else has_bit p.mode 1

-- The constants of the C library.
pub record OpenFlags : Type 0 where
  pub access_mode : ℕ → ℕ
  pub o_rdonly : ℕ
  pub o_wronly : ℕ
  pub o_rdwr : ℕ

pub data Denied : Type 0 where
  eacces : Denied

module _ (c : OpenFlags) where
  unfoldable pub ensure_open_allowed : Permission → ℕ → ℕ → ℕ → Result Denied (Unit {0})
  unfolding can_read can_write
  ensure_open_allowed p uid gid flags =
      let mode = c.access_mode flags in
      if mode == c.o_rdonly
      then (if can_read p uid gid then ok tt else err eacces)
      else if mode == c.o_wronly
      then (if can_write p uid gid then ok tt else err eacces)
      else if mode == c.o_rdwr
      then (if can_read p uid gid && can_write p uid gid then ok tt else err eacces)
      else ok tt

unfoldable pub ensure_directory_write_allowed : Permission → ℕ → ℕ → Result Denied (Unit {0})
unfolding can_write
ensure_directory_write_allowed p uid gid = if can_write p uid gid then ok tt else err eacces

-- The access modes are three different numbers.
abbrev pub Distinct : OpenFlags → Type 0
Distinct c =
    ((c.o_rdonly == c.o_wronly) ≡ false)
    × ((c.o_rdonly == c.o_rdwr) ≡ false)
    × ((c.o_wronly == c.o_rdwr) ≡ false)

-- The digit of the mode that counts for a user: the owner's, the group's or the others'.
unfoldable pub class_digit : Permission → ℕ → ℕ → ℕ
class_digit p uid gid =
    if uid == p.uid
    then (p.mode / 64) % 8
    else if gid == p.gid
    then (p.mode / 8) % 8
    else p.mode % 8

-- The rights of a user other than root are the bits of one octal digit of the mode: the owner's for
-- the owner, even if the group's grants more, the group's for the group, and else the last one.
-- Root has all rights.
pub rights-class_digit :
    (p : Permission) (uid gid : ℕ)
    → (can_read p uid gid ≡ (uid == 0 || has_bit (class_digit p uid gid) 4))
      × (can_write p uid gid ≡ (uid == 0 || has_bit (class_digit p uid gid) 2))
      × (can_execute p uid gid ≡ (uid == 0 || has_bit (class_digit p uid gid) 1))
unfolding can_read can_write can_execute has_bit class_digit
rights-class_digit p uid gid = (ground arith, ground arith, ground arith)

-- A file may be opened exactly with the right to read it, if the flags ask for reading or for both,
-- and with the right to write it, if they ask for writing or for both.
pub ensure_open_allowed-rights :
    (c : OpenFlags) (p : Permission) (uid gid flags : ℕ)
    → Distinct c
    → let mode = c.access_mode flags in
      is_ok (ensure_open_allowed c p uid gid flags) ≡ (
        (not (mode == c.o_rdonly || mode == c.o_rdwr) || can_read p uid gid)
        && (not (mode == c.o_wronly || mode == c.o_rdwr) || can_write p uid gid))
unfolding ensure_open_allowed
ensure_open_allowed-rights c p uid gid flags (a, b, d) = ground (
  arith,
  ==_iff (c.access_mode flags) c.o_rdonly,
  ==_iff (c.access_mode flags) c.o_wronly,
  ==_iff (c.access_mode flags) c.o_rdwr,
  a,
  b,
  d,
)
