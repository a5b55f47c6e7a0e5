-- ===== src/Service/Shares/Revoked.antt =====
-- A revocation holds at once: no credential is issued to the agent afterwards.
use section.Base.{
  ℕ, ◌≡◌, refl, sym, ap, ◌∙◌, true, false, Result, ok, err, >>=-eq-ok, is_ok, arith, Option, none,
  some, List, find, filter, ◌==◌, nat_eq, list_eq, ◌>>=◌,
}
use section.Base.Text.{Text}
use section.AgentFs.Access.{read, AgentFsRecord, has_capability}
use section.Service.{
  Body, Tables, ServiceError, Stamp, find_filesystem, by_reference, one_of, found, unknown_fs,
  known_filesystem, require_capability, finish_transaction,
}
use section.Service.Grants.{RevokeMutationResult, fs_revoke}
use section.Service.Grants.Revocation.{Distinct}
use section.Service.Grants.Rights.{require_capability-ok, fs_revoke-effect, fs_revoke-rights}
use section.Service.Filesystems.{ResolvedServiceFilesystem, resolve_filesystem_with_source}
use section.Service.Shares.{issue_body, issue_credential}

by_reference-same :
    (o : Option AgentFsRecord) (fs_id : Text) (t t' : Tables)
    → t'.filesystems ≡ t.filesystems
    → by_reference o fs_id t' ≡ by_reference o fs_id t
unfolding by_reference
by_reference-same (some fs) fs_id t t' e = refl
by_reference-same none fs_id t t' e =
    ap
      (λ l.
        one_of (filter (λ fs. fs.source_name == fs_id) l)
          (one_of (filter (λ fs. fs.name == fs_id) l) (ok none)))
      e

pub known_filesystem-same :
    (fs_id : Text) (t t' : Tables)
    → t'.filesystems ≡ t.filesystems
    → known_filesystem fs_id t' ≡ known_filesystem fs_id t
unfolding known_filesystem find_filesystem
known_filesystem-same fs_id t t' e =
    let hit : (l : List AgentFsRecord) → Option AgentFsRecord =
      λ l. find (λ fs. fs.fs_id == fs_id) l in
    ap (λ r. r >>= found unknown_fs)
      (by_reference-same (hit t'.filesystems) fs_id t t' e
        ∙ ap (λ l. by_reference (hit l) fs_id t) e)

resolve_filesystem-fs :
    (fs_id : Text) (t : Tables) (fs : AgentFsRecord) (resolved : ResolvedServiceFilesystem)
    → known_filesystem fs_id t ≡ ok fs
    → resolve_filesystem_with_source fs_id t ≡ ok resolved
    → resolved.fs ≡ fs
unfolding resolve_filesystem_with_source
resolve_filesystem-fs fs_id t fs resolved known h = let opened = (rw known at h) in ground arith

-- What returns nothing is an error.
refuted :
    {A : Type 0} (m : Result ServiceError A) → ((a : A) → m ≡ ok a → true ≡ false) → is_ok m ≡ false
refuted (ok a) h = h a refl
refuted (err e) h = refl

issue_body-denied :
    (fs_id agent_id installation_id : Text) (stamp : Stamp) (t : Tables) (fs : AgentFsRecord)
    → known_filesystem fs_id t ≡ ok fs
    → has_capability fs t.grants agent_id read ≡ false
    → is_ok (issue_body fs_id agent_id installation_id stamp t) ≡ false
unfolding issue_body
issue_body-denied fs_id agent_id installation_id stamp t fs known denied =
    refuted (issue_body fs_id agent_id installation_id stamp t) (λ issued h.
      let (resolved, h_resolved, h1) = >>=-eq-ok (resolve_filesystem_with_source fs_id t) _ h in
      let (_, h_read, _) = >>=-eq-ok (require_capability resolved.fs agent_id read t) _ h1 in
      let same = resolve_filesystem-fs fs_id t fs resolved known h_resolved in
      let may_read : has_capability resolved.fs t.grants agent_id read ≡ true =
        sym (require_capability-ok resolved.fs agent_id read t) ∙ ap is_ok h_read in
      sym may_read
      ∙ ap (λ (f : AgentFsRecord). has_capability f t.grants agent_id read) same
      ∙ denied)

finish_transaction-is_ok :
    {A : Type 0} (t : Tables) (body : Body A) → is_ok (finish_transaction t body).1 ≡ is_ok body
unfolding finish_transaction
finish_transaction-is_ok t (ok (t', a)) = refl
finish_transaction-is_ok t (err e) = refl

-- After an agent's grants on a filesystem were revoked, asking for a credential for the filesystem by
-- the same reference fails for the agent. No two rows of the table have the same `grant_id`.
pub fs_revoke-issue_credential :
    (fs_id actor target installation_id : Text) (now : ℕ) (stamps : ℕ → Stamp) (stamp : Stamp)
    (t t' : Tables) (result : RevokeMutationResult) (fs : AgentFsRecord)
    → Distinct t.grants
    → known_filesystem fs_id t ≡ ok fs
    → fs_revoke fs_id actor target now stamps t ≡ (t', ok result)
    → is_ok (issue_credential fs_id target installation_id stamp t').1 ≡ false
unfolding issue_credential
fs_revoke-issue_credential fs_id actor target installation_id now stamps stamp t t' result fs
      distinct known h =
    let (effect, _, _) =
      fs_revoke-effect fs_id actor target now stamps t t' result fs distinct known h in
    let (_, gone, _) =
      fs_revoke-rights fs_id actor target now stamps t t' result fs fs target read distinct known
        h in
    let kept : t'.filesystems ≡ t.filesystems = ap (λ (s : Tables). s.filesystems) effect in
    finish_transaction-is_ok t' (issue_body fs_id target installation_id stamp t')
    ∙ issue_body-denied fs_id target installation_id stamp t' fs
        (known_filesystem-same fs_id t t' kept ∙ known) gone
