-- ===== src/Tests/Locks.antt =====
-- The head lock, at concrete locks.
use section.Base.{◌≡◌, refl, none, [], ◌∷◌, Result, ok, err}
use section.Base.Text.{codes}
use section.AgentFs.HeadLock.{
  AgentFsHeadLockRecord, LockStore, LockError, metadata_write_conflict, new_lock, acquire_head_lock,
  release_head_lock, list_active_head_locks,
}
use section.AgentFs.HeadLock.Exclusion.{acquire_head_lock-held, acquire_head_lock-release}

abbrev unlocked : LockStore
unlocked = record { fixed = none; files = [] }

abbrev held : LockStore
held = record { fixed = none; files = new_lock (codes "fs") (codes "alice") (codes "t1") 100 ∷ [] }

acquire_head_lock-held_example :
    acquire_head_lock (codes "fs") (codes "bob") (codes "t0") 200 held
    ≡ (held, err metadata_write_conflict)
acquire_head_lock-held_example =
    acquire_head_lock-held (codes "fs") (codes "bob") (codes "t0") 200 held refl

abbrev own : AgentFsHeadLockRecord
own = new_lock (codes "fs") (codes "bob") (codes "t0") 200

abbrev locked : LockStore × Result LockError AgentFsHeadLockRecord
locked = acquire_head_lock (codes "fs") (codes "bob") (codes "t0") 200 unlocked

acquire_head_lock-release_example :
    (locked.1 ≡ ok own)
    × (list_active_head_locks locked.0.files (codes "fs") 200 ≡ own ∷ [])
    × (release_head_lock locked.0 own ≡ unlocked)
acquire_head_lock-release_example =
    acquire_head_lock-release (codes "fs") (codes "bob") (codes "t0") 200 unlocked refl refl refl
