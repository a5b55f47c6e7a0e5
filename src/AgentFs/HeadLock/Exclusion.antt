-- ===== src/AgentFs/HeadLock/Exclusion.antt =====
-- The head lock: an older live lock keeps others out, and without a live lock it can be had.
use section.Base.{
  ℕ, ◌≡◌, refl, ◌∙◌, Bool, true, false, not, ◌&&◌, ◌||◌, List, [], ◌∷◌, any, all, filter, ltb,
  nat_beq, ◌==◌, ==_refl, nat_eq, list_eq, ok, err, arith, Bool-cases, inl, inr,
}
use section.Base.Text.{Text}
use section.AgentFs.HeadLock.{
  AgentFsHeadLockRecord, LockStore, metadata_write_conflict, not_after, sort_in, sort, is_live,
  list_active_head_locks, delete_head_lock_record, first_is, fixed_live, new_lock,
  acquire_head_lock, release_head_lock,
}

abbrev older : ℕ → List AgentFsHeadLockRecord → Bool
older now [] = false
older now (lock ∷ locks) = ltb lock.created_at_ms now

-- The first of a sorted list is no younger than any of the list.
sort_in-older :
    (now : ℕ) (x : AgentFsHeadLockRecord) (ys : List AgentFsHeadLockRecord)
    → (ltb x.created_at_ms now || older now ys) ≡ true
    → older now (sort_in x ys) ≡ true
unfolding sort_in not_after
sort_in-older now x [] h = ground arith
sort_in-older now x (y ∷ ys) h = ground arith

sort-older :
    (now : ℕ) (xs : List AgentFsHeadLockRecord)
    → any (λ lock. ltb lock.created_at_ms now) xs ≡ true
    → older now (sort xs) ≡ true
unfolding sort
sort-older now [] h = h
sort-older now (x ∷ xs) h = sort_in-older now x (sort xs) (ground (arith, sort-older now xs))

sort_in-all :
    (p : AgentFsHeadLockRecord → Bool) (x : AgentFsHeadLockRecord) (ys : List AgentFsHeadLockRecord)
    → all p (sort_in x ys) ≡ (p x && all p ys)
unfolding sort_in
sort_in-all p x [] = refl
sort_in-all p x (y ∷ ys) = ground (arith, sort_in-all p x ys)

sort-all :
    (p : AgentFsHeadLockRecord → Bool) (xs : List AgentFsHeadLockRecord)
    → all p (sort xs) ≡ all p xs
unfolding sort
sort-all p [] = refl
sort-all p (x ∷ xs) = ground (arith, sort-all p xs, sort_in-all p x (sort xs))

-- Locks of a token that no file has are made now.
abbrev made_now : Text → ℕ → AgentFsHeadLockRecord → Bool
made_now token now lock = not (lock.lock_token == token) || nat_beq lock.created_at_ms now

made_now-filter :
    (fs_id token : Text) (now : ℕ) (files : List AgentFsHeadLockRecord)
    → any (λ other. other.lock_token == token) files ≡ false
    → all (made_now token now) (filter (is_live fs_id now) files) ≡ true
made_now-filter fs_id token now [] h = refl
made_now-filter fs_id token now (x ∷ files) h =
    ground (arith, made_now-filter fs_id token now files)

any-filter :
    (p q : AgentFsHeadLockRecord → Bool) (files : List AgentFsHeadLockRecord)
    → any p (filter q files) ≡ any (λ x. q x && p x) files
any-filter p q [] = refl
any-filter p q (x ∷ files) = ground (arith, any-filter p q files)

not_first :
    (token : Text) (now : ℕ) (xs : List AgentFsHeadLockRecord)
    → older now xs ≡ true
    → all (made_now token now) xs ≡ true
    → first_is token xs ≡ false
not_first token now [] h g = refl
not_first token now (x ∷ xs) h g = ground arith

delete_absent :
    (files : List AgentFsHeadLockRecord) (token : Text)
    → any (λ other. other.lock_token == token) files ≡ false
    → delete_head_lock_record files token ≡ files
unfolding delete_head_lock_record
delete_absent [] token h = refl
delete_absent (x ∷ files) token h = ground (arith, delete_absent files token)

-- The lists of live locks behind the new one.
live_older :
    (fs_id owner token : Text) (now : ℕ) (files : List AgentFsHeadLockRecord)
    → any (λ lock. is_live fs_id now lock && ltb lock.created_at_ms now) files ≡ true
    → any
        (λ lock. ltb lock.created_at_ms now)
        (filter (is_live fs_id now) (new_lock fs_id owner token now ∷ files))
      ≡ true
live_older fs_id owner token now files h =
    ground (arith, any-filter (λ lock. ltb lock.created_at_ms now) (is_live fs_id now) files)

live_made_now :
    (fs_id owner token : Text) (now : ℕ) (files : List AgentFsHeadLockRecord)
    → any (λ other. other.lock_token == token) files ≡ false
    → all (made_now token now) (filter (is_live fs_id now) (new_lock fs_id owner token now ∷ files))
      ≡ true
live_made_now fs_id owner token now files h =
    ground (arith, made_now-filter fs_id token now files h)

-- While a live lock of the filesystem is in the lock directory that was made before, acquiring the
-- lock fails with a conflict and leaves the store as it was.
pub acquire_head_lock-held :
    (fs_id owner token : Text) (now : ℕ) (s : LockStore)
    → any (λ lock. is_live fs_id now lock && ltb lock.created_at_ms now) s.files ≡ true
    → acquire_head_lock fs_id owner token now s ≡ (s, err metadata_write_conflict)
unfolding acquire_head_lock list_active_head_locks
acquire_head_lock-held fs_id owner token now s h =
    let live = filter (is_live fs_id now) (new_lock fs_id owner token now ∷ s.files) in
    elim (Bool-cases (fixed_live fs_id now s.fixed)) [
      | inl e ↦ rw e refl
      | inr e ↦ elim (Bool-cases (any (λ other. other.lock_token == token) s.files)) [
        | inl f ↦ rw (e, f) refl
        | inr f ↦
            let rest : first_is token (sort live) ≡ false =
              not_first token now (sort live)
                (sort-older now live (live_older fs_id owner token now s.files h))
                (sort-all (made_now token now) live
                  ∙ live_made_now fs_id owner token now s.files f) in
            let gone = delete_absent s.files token f in
            rw (e, f, rest) (ground (arith, gone, ==_refl token))
      ]
    ]

no_live :
    (fs_id : Text) (now : ℕ) (files : List AgentFsHeadLockRecord)
    → any (is_live fs_id now) files ≡ false
    → filter (is_live fs_id now) files ≡ []
no_live fs_id now [] h = refl
no_live fs_id now (x ∷ files) h = ground (arith, no_live fs_id now files)

-- Without a live lock of the filesystem, a token that no file has yet gets the lock: it is made now
-- and lives for the time to live. Releasing it again leaves the store as it was.
pub acquire_head_lock-release :
    (fs_id owner token : Text) (now : ℕ) (s : LockStore)
    → fixed_live fs_id now s.fixed ≡ false
    → any (is_live fs_id now) s.files ≡ false
    → any (λ other. other.lock_token == token) s.files ≡ false
    → let lock = new_lock fs_id owner token now in
      let (s', got) = acquire_head_lock fs_id owner token now s in
      (got ≡ ok lock)
      × (list_active_head_locks s'.files fs_id now ≡ lock ∷ [])
      × (release_head_lock s' lock ≡ s)
unfolding acquire_head_lock list_active_head_locks release_head_lock delete_head_lock_record sort
    sort_in
acquire_head_lock-release fs_id owner token now s e h f =
    let none_left = no_live fs_id now s.files h in
    let kept = delete_absent s.files token f in
    let mine : is_live fs_id now (new_lock fs_id owner token now) ≡ true =
      ground (arith, ==_refl fs_id) in
    let same = ==_refl token in
    (
      ground (arith, e, f, none_left, mine, same),
      ground (arith, e, f, none_left, mine, same),
      ground (arith, e, f, none_left, mine, same, kept),
    )
