-- ===== src/AgentFs/HeadLock.antt =====
-- The lock on the head of a shared filesystem: `acquire_head_lock`, `release_head_lock` and
-- `list_active_head_locks` of crates/sectiond/src/agentfs.rs. The store is the lock at the fixed
-- path and the files of the lock directory, which are named by their tokens. The clock reading and
-- the random token are arguments, and one call runs without another one in between.
pub mod Exclusion
use section.Base.{
  ℕ, ◌+◌, Bool, true, false, not, ◌&&◌, ◌||◌, Option, none, some, List, [], ◌∷◌, any, filter, ltb,
  leb, nat_beq, if◌then◌else◌, ◌==◌, nat_eq, list_eq, Result, ok, err,
}
use section.Base.Text.{Text}

pub record AgentFsHeadLockRecord : Type 0 where
  pub schema_version : ℕ
  pub fs_id : Text
  pub lock_token : Text
  pub owner_agent_id : Text
  pub created_at_ms : ℕ
  pub expires_at_ms : ℕ

pub record LockStore : Type 0 where
  pub fixed : Option AgentFsHeadLockRecord
  pub files : List AgentFsHeadLockRecord

pub data LockError : Type 0 where
  metadata_write_conflict : LockError

abbrev pub head_lock_ttl_ms : ℕ
head_lock_ttl_ms = 30000

-- The order of texts by their code points.
abbrev pub text_leb : Text → Text → Bool
text_leb [] t = true
text_leb (x ∷ s) [] = false
text_leb (x ∷ s) (y ∷ t) = ltb x y || (nat_beq x y && text_leb s t)

-- The comparison of `sort_by`: not greater.
unfoldable pub not_after : AgentFsHeadLockRecord → AgentFsHeadLockRecord → Bool
not_after left right =
    ltb left.created_at_ms right.created_at_ms
    || (nat_beq left.created_at_ms right.created_at_ms && text_leb left.lock_token right.lock_token)

unfoldable pub sort_in :
    AgentFsHeadLockRecord → List AgentFsHeadLockRecord → List AgentFsHeadLockRecord
unfolding not_after
sort_in x [] = x ∷ []
sort_in x (y ∷ ys) = let rest = sort_in x ys in if not_after x y then x ∷ y ∷ ys else y ∷ rest

unfoldable pub sort : List AgentFsHeadLockRecord → List AgentFsHeadLockRecord
unfolding sort_in
sort [] = []
sort (x ∷ xs) = sort_in x (sort xs)

abbrev pub is_live : Text → ℕ → AgentFsHeadLockRecord → Bool
is_live fs_id now lock = lock.fs_id == fs_id && ltb now lock.expires_at_ms

unfoldable pub list_active_head_locks :
    List AgentFsHeadLockRecord → Text → ℕ → List AgentFsHeadLockRecord
unfolding sort
list_active_head_locks files fs_id now = sort (filter (is_live fs_id now) files)

unfoldable pub delete_head_lock_record :
    List AgentFsHeadLockRecord → Text → List AgentFsHeadLockRecord
delete_head_lock_record files token = filter (λ lock. not (lock.lock_token == token)) files

-- `active_locks.first().is_some_and(|active| active.lock_token == lock.lock_token)`
abbrev pub first_is : Text → List AgentFsHeadLockRecord → Bool
first_is token [] = false
first_is token (lock ∷ locks) = lock.lock_token == token

-- The check at the start: the lock at the fixed path is live.
abbrev pub fixed_live : Text → ℕ → Option AgentFsHeadLockRecord → Bool
fixed_live fs_id now none = false
fixed_live fs_id now (some lock) = is_live fs_id now lock

abbrev pub new_lock : Text → Text → Text → ℕ → AgentFsHeadLockRecord
new_lock fs_id owner token now = record {
  schema_version = 1;
  fs_id = fs_id;
  lock_token = token;
  owner_agent_id = owner;
  created_at_ms = now;
  expires_at_ms = now + head_lock_ttl_ms;
}

unfoldable pub acquire_head_lock :
    Text → Text → Text → ℕ → LockStore → LockStore × Result LockError AgentFsHeadLockRecord
unfolding list_active_head_locks delete_head_lock_record
acquire_head_lock fs_id owner token now s =
    let lock = new_lock fs_id owner token now in
    let files = lock ∷ s.files in
    if fixed_live fs_id now s.fixed
    then (s, err metadata_write_conflict)
    else if any (λ other. other.lock_token == token) s.files
    then (s, err metadata_write_conflict)
    else if first_is token (list_active_head_locks files fs_id now)
    then (record s { files = files }, ok lock)
    else (record s { files = delete_head_lock_record files token }, err metadata_write_conflict)

unfoldable pub release_head_lock : LockStore → AgentFsHeadLockRecord → LockStore
unfolding delete_head_lock_record
release_head_lock s lock = record s { files = delete_head_lock_record s.files lock.lock_token }
