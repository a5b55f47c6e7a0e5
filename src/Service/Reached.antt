-- ===== src/Service/Reached.antt =====
-- The stores that the operations of the control service lead to, and what holds in all of them.
pub mod Operations
pub mod Creation
pub mod Steps
use section.Base.{
  ℕ, ◌+◌, ◌≤◌, zero, suc, ◌≡◌, refl, sym, subst, ap, ◌∙◌, Bool, true, false, not, ◌&&◌, ◌||◌,
  Option, none, some, List, [], ◌∷◌, ◌++◌, any, all, map, filter, find, if◌then◌else◌, ◌==◌, ==_iff,
  ==_refl, nat_eq, list_eq, arith, Result, ok, err, >>=-eq-ok, Bool-cases, inl, inr, guard,
  is_empty,
}
use section.Base.Text.{Text, codes, trim}
use section.AgentFs.Access.{AgentFsRole, owner, AgentFsRecord, AgentFsGrantRecord}
use section.AgentFs.Records.{AgentFsSourceProfileRecord, AgentFsEventRecord}
use section.AgentFs.Metadata.{validate_agent_id}
use section.Service.{
  SourceConfig, Tables, ServiceError, invalid_agent_id, Body, Stamp, finish_transaction, insert_by,
  grant_no_later, known_filesystem, find_filesystem, by_reference, one_of, unknown_fs,
}
use section.Service.Grants.{
  GrantMutationResult, RevokeMutationResult, is_target, as_revoked, checked, with_error,
  check_grant, grant_body, fs_grant, revoke_body, fs_revoke,
}
use section.Service.Grants.Revocation.{Distinct, revoke_if}
use section.Service.Grants.Rights.{fs_revoke-effect, any-insert_by}
use section.Service.Grants.Replacement.{IsNewGrant, replaced, fs_grant-effect}
use section.Service.Grants.Invariant.{
  InOrder, active_count, revoked-InOrder, replaced-InOrder, filtered-InOrder,
}
use section.Service.Filesystems.{rollback_created_filesystem}
use section.Service.Log.{Numbered, AllNumbered, of_fs}
use section.Service.Shares.Access.{found-ok}
use section.Service.Log.Appends.{Logged, fs_grant-Logged, fs_revoke-Logged}

abbrev pub is_known : List AgentFsRecord → Text → Bool
is_known filesystems fs_id = any (λ f. f.fs_id == fs_id) filesystems

pub record IsSound (t : Tables) : Type 0 where
  pub grants : InOrder t.grants
  pub homed : all (λ g. is_known t.filesystems g.fs_id) t.grants ≡ true
  pub numbered : AllNumbered t.events

pub homed-revoked :
    (p : AgentFsGrantRecord → Bool) (now : ℕ) (by : Text) (filesystems : List AgentFsRecord)
    (rows : List AgentFsGrantRecord)
    → all (λ g. is_known filesystems g.fs_id) (map (revoke_if p now by) rows)
      ≡ all (λ g. is_known filesystems g.fs_id) rows
unfolding as_revoked
homed-revoked p now by filesystems [] = refl
homed-revoked p now by filesystems (x ∷ rows) =
    ground (arith, homed-revoked p now by filesystems rows)

pub homed-insert_by :
    (filesystems : List AgentFsRecord) (x : AgentFsGrantRecord) (rows : List AgentFsGrantRecord)
    → all (λ g. is_known filesystems g.fs_id) (insert_by grant_no_later x rows)
      ≡ (is_known filesystems x.fs_id && all (λ g. is_known filesystems g.fs_id) rows)
unfolding insert_by
homed-insert_by filesystems x [] = refl
homed-insert_by filesystems x (y ∷ rows) = ground (arith, homed-insert_by filesystems x rows)

-- Rows of other filesystems find theirs after one of them is deleted.
is_known-filter :
    (fs_id other : Text) (filesystems : List AgentFsRecord)
    → is_known (filter (λ f. not (f.fs_id == fs_id)) filesystems) other
      ≡ (is_known filesystems other && not (other == fs_id))
is_known-filter fs_id other [] = refl
is_known-filter fs_id other (f ∷ filesystems) = ground (
  arith,
  is_known-filter fs_id other filesystems,
  ==_iff f.fs_id fs_id,
  ==_iff f.fs_id other,
  ==_iff other fs_id,
)

homed-filter :
    (fs_id : Text) (filesystems : List AgentFsRecord) (rows : List AgentFsGrantRecord)
    → all (λ g. is_known filesystems g.fs_id) rows ≡ true
    → all
        (λ g. is_known (filter (λ f. not (f.fs_id == fs_id)) filesystems) g.fs_id)
        (filter (λ g. not (g.fs_id == fs_id)) rows)
      ≡ true
homed-filter fs_id filesystems [] h = refl
homed-filter fs_id filesystems (x ∷ rows) h =
    ground (arith, homed-filter fs_id filesystems rows, is_known-filter fs_id x.fs_id filesystems)

of_fs-filter :
    (fs_id other : Text) (events : List AgentFsEventRecord)
    → of_fs other (filter (λ e. not (e.fs_id == fs_id)) events)
      ≡ (if other == fs_id then [] else of_fs other events)
of_fs-filter fs_id other [] = ground arith
of_fs-filter fs_id other (e ∷ events) = ground (
  arith,
  of_fs-filter fs_id other events,
  ==_iff e.fs_id fs_id,
  ==_iff e.fs_id other,
  ==_iff other fs_id,
)

pub rollback-IsSound :
    (fs_id : Text) (t : Tables) → IsSound t → IsSound (rollback_created_filesystem fs_id t)
unfolding rollback_created_filesystem
rollback-IsSound fs_id t v = record {
  grants = filtered-InOrder (λ g. not (g.fs_id == fs_id)) t.grants v.grants;
  homed = homed-filter fs_id t.filesystems t.grants v.homed;
  numbered = λ other. elim (Bool-cases (other == fs_id)) [
    | inl e ↦ rw (of_fs-filter fs_id other t.events, e) tt
    | inr e ↦ rw (of_fs-filter fs_id other t.events, e) (v.numbered other)
  ];
}

-- A transaction keeps the store sound if its body, where it succeeds, does.
pub finish_transaction-IsSound :
    {A : Type 0} (t : Tables) (body : Body A)
    → ((t' : Tables) (value : A) → body ≡ ok (t', value) → IsSound t')
    → IsSound t
    → IsSound (finish_transaction t body).0
unfolding finish_transaction
finish_transaction-IsSound t (ok (t', value)) keep v = keep t' value refl
finish_transaction-IsSound t (err e) keep v = v

found_known :
    (p : AgentFsRecord → Bool) (l : List AgentFsRecord) (fs : AgentFsRecord)
    → find p l ≡ some fs
    → is_known l fs.fs_id ≡ true
found_known p [] fs h = absurd cc
found_known p (x ∷ l) fs h = ground (arith, found_known p l fs, ==_refl fs.fs_id)

filtered_known :
    (p : AgentFsRecord → Bool) (l rest : List AgentFsRecord) (fs : AgentFsRecord)
    → filter p l ≡ fs ∷ rest
    → is_known l fs.fs_id ≡ true
filtered_known p [] rest fs h = absurd cc
filtered_known p (x ∷ l) rest fs h = ground (arith, filtered_known p l rest fs, ==_refl fs.fs_id)

one_of-known :
    (p : AgentFsRecord → Bool) (l found' : List AgentFsRecord)
    (next : Result ServiceError (Option AgentFsRecord)) (fs : AgentFsRecord)
    → filter p l ≡ found'
    → one_of found' next ≡ ok (some fs)
    → (next ≡ ok (some fs) → is_known l fs.fs_id ≡ true)
    → is_known l fs.fs_id ≡ true
unfolding one_of
one_of-known p l [] next fs e h k = k h
one_of-known p l (x ∷ []) next fs e h k = filtered_known p l [] fs (ground (arith, e, h))
one_of-known p l (x ∷ y ∷ rest) next fs e h k = absurd cc

by_reference-known :
    (o : Option AgentFsRecord) (fs_id : Text) (t : Tables) (fs : AgentFsRecord)
    → find (λ f. f.fs_id == fs_id) t.filesystems ≡ o
    → by_reference o fs_id t ≡ ok (some fs)
    → is_known t.filesystems fs.fs_id ≡ true
unfolding by_reference
by_reference-known (some x) fs_id t fs e h =
    found_known (λ f. f.fs_id == fs_id) t.filesystems fs (ground (arith, e, h))
by_reference-known none fs_id t fs e h =
    one_of-known (λ f. f.source_name == fs_id) t.filesystems _ _ fs refl h
      (λ h'. one_of-known (λ f. f.name == fs_id) t.filesystems _ _ fs refl h' (λ h''. absurd cc))

-- The filesystem that a reference leads to is a row of the table.
pub known_filesystem-is_known :
    (fs_id : Text) (t : Tables) (fs : AgentFsRecord)
    → known_filesystem fs_id t ≡ ok fs
    → is_known t.filesystems fs.fs_id ≡ true
unfolding known_filesystem find_filesystem
known_filesystem-is_known fs_id t fs h =
    let found' = find (λ f. f.fs_id == fs_id) t.filesystems in
    let (o, referred, h1) = >>=-eq-ok (by_reference found' fs_id t) _ h in
    by_reference-known found' fs_id t fs refl (referred ∙ ap ok (found-ok unknown_fs o fs h1))
