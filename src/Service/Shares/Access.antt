-- ===== src/Service/Shares/Access.antt =====
-- Who gets a credential: only an agent that may read the filesystem when it asks.
use section.Base.{
  ℕ, ◌+◌, ◌≡◌, sym, ap, ◌∙◌, Bool, true, not, ◌&&◌, Option, none, some, List, [], ◌∷◌, ◌++◌, any,
  find, is_none, contains, ◌==◌, nat_eq, list_eq, ok, >>=-eq-ok, is_ok, arith, guard,
}
use section.Base.Text.{Text}
use section.AgentFs.Access.{
  read, capability_eq, AgentFsGrantRecord, is_active, list_grants, has_capability,
}
use section.AgentFs.Records.{AgentFsShareRecord}
use section.Service.{
  Tables, ServiceError, unknown_fs, grant_denied, Stamp, found, require_capability,
}
use section.Service.Grants.Rights.{finish_transaction-ok, require_capability-ok}
use section.Service.Filesystems.{ResolvedServiceFilesystem, resolve_filesystem_with_source}
use section.Service.Shares.{
  IssuedAgentFsCredential, credential_ttl_ms, expired, check_share, accepted, mark_accepted,
  issue_credential_for_resolved, new_binding, accept_body, accept_share,
}

pub found-ok :
    {A : Type 0} (failure : ServiceError) (o : Option A) (a : A)
    → found failure o ≡ ok a
    → o ≡ some a
found-ok failure none a h = absurd cc
found-ok failure (some x) a h = ground arith

abbrev pub backs : AgentFsShareRecord → AgentFsGrantRecord → Bool
backs share g = g.grant_id == share.grant_id && is_active g

-- What a successful acceptance went through.
pub record IsAccepted (share_id agent_id installation_id : Text) (now accepted_at : ℕ)
    (stamp : Stamp) (t t' : Tables) (share : AgentFsShareRecord)
    (resolved : ResolvedServiceFilesystem) (grant : AgentFsGrantRecord)
    (issued : IssuedAgentFsCredential) : Type 0 where
  pub of_share : find (λ s. s.share_id == share_id) t.shares ≡ some share
  pub valid : is_ok (check_share share agent_id now) ≡ true
  pub of_filesystem : resolve_filesystem_with_source share.fs_id t ≡ ok resolved
  pub readable : is_ok (require_capability resolved.fs agent_id read t) ≡ true
  pub backed : find (backs share) (list_grants t.grants resolved.fs.fs_id) ≡ some grant
  pub reads : contains grant.capabilities read ≡ true
  pub credential :
      issue_credential_for_resolved resolved agent_id installation_id stamp
        (mark_accepted share accepted_at t)
      ≡ ok (t', issued)

pub accept_body-IsAccepted :
    (share_id agent_id installation_id : Text) (now accepted_at : ℕ) (stamp : Stamp) (t t' : Tables)
    (share' : AgentFsShareRecord) (issued : IssuedAgentFsCredential)
    → accept_body share_id agent_id installation_id now accepted_at stamp t
      ≡ ok (t', (share', issued))
    → (share : AgentFsShareRecord) × (resolved : ResolvedServiceFilesystem)
      × (grant : AgentFsGrantRecord) × IsAccepted share_id agent_id installation_id now accepted_at
          stamp t t' share resolved grant issued
      × (share' ≡ accepted share accepted_at)
unfolding accept_body
accept_body-IsAccepted share_id agent_id installation_id now accepted_at stamp t t' share' issued
      h =
    let (share, h_share, h1) =
      >>=-eq-ok (found unknown_fs (find (λ s. s.share_id == share_id) t.shares)) _ h in
    let (_, h_valid, h2) = >>=-eq-ok (check_share share agent_id now) _ h1 in
    let (resolved, h_resolved, h3) =
      >>=-eq-ok (resolve_filesystem_with_source share.fs_id t) _ h2 in
    let (_, h_read, h4) = >>=-eq-ok (require_capability resolved.fs agent_id read t) _ h3 in
    let (grant, h_grant, h5) =
      >>=-eq-ok (found grant_denied (find (backs share) (list_grants t.grants resolved.fs.fs_id))) _
        h4 in
    let (_, h_reads, h6) = >>=-eq-ok (guard (contains grant.capabilities read) grant_denied) _ h5 in
    let issue =
      issue_credential_for_resolved resolved agent_id installation_id stamp
        (mark_accepted share accepted_at t) in
    let ((t1, issued1), h_issue, h7) = >>=-eq-ok issue _ h6 in
    let same_tables : t1 ≡ t' = ground (arith, h7) in
    let same_issued : issued1 ≡ issued = ground (arith, h7) in
    (
      share,
      resolved,
      grant,
      record {
        of_share = found-ok unknown_fs (find (λ s. s.share_id == share_id) t.shares) share h_share;
        valid = ap is_ok h_valid;
        of_filesystem = h_resolved;
        readable = ap is_ok h_read;
        backed =
            found-ok grant_denied (find (backs share) (list_grants t.grants resolved.fs.fs_id))
              grant h_grant;
        reads = ground (arith, h_reads);
        credential = ground (arith, h_issue, same_tables, same_issued);
      },
      ground (arith, h7),
    )

check_share-ok :
    (share : AgentFsShareRecord) (agent_id : Text) (now : ℕ)
    → is_ok (check_share share agent_id now) ≡ (
        share.target_agent_id == agent_id
        && (is_none share.revoked_at_ms && not (expired now share.expires_at_ms)))
unfolding check_share
check_share-ok share agent_id now = ground arith

pub issue_credential_for_resolved-binding :
    (resolved : ResolvedServiceFilesystem) (agent_id installation_id : Text) (stamp : Stamp)
    (t t' : Tables) (issued : IssuedAgentFsCredential)
    → issue_credential_for_resolved resolved agent_id installation_id stamp t ≡ ok (t', issued)
    → (issued.binding.fs_id ≡ resolved.fs.fs_id)
      × (issued.binding.agent_id ≡ agent_id)
      × (issued.binding.expires_at_ms ≡ stamp.at + credential_ttl_ms)
      × (t'.credential_bindings ≡ t.credential_bindings ++ issued.binding ∷ [])
unfolding issue_credential_for_resolved new_binding
issue_credential_for_resolved-binding resolved agent_id installation_id stamp t t' issued h =
    ground arith

found_backing :
    (fs_id : Text) (share : AgentFsShareRecord) (grant : AgentFsGrantRecord)
    (grants : List AgentFsGrantRecord)
    → find (backs share) (list_grants grants fs_id) ≡ some grant
    → contains grant.capabilities read ≡ true
    → any (λ g. g.fs_id == fs_id && (backs share g && contains g.capabilities read)) grants ≡ true
unfolding list_grants
found_backing fs_id share grant [] h r = absurd cc
found_backing fs_id share grant (x ∷ grants) h r =
    ground (arith, found_backing fs_id share grant grants)

-- A share is accepted only by the agent that it is for, while it is neither revoked nor expired. The
-- filesystem that its identifier leads to in the tables is one that the agent may read when it
-- accepts, and an active grant on it that the share names has the capability to read. The credential
-- is for that agent and that filesystem.
pub accept_share-readable :
    (share_id agent_id installation_id : Text) (now accepted_at : ℕ) (stamp : Stamp) (t t' : Tables)
    (share' : AgentFsShareRecord) (issued : IssuedAgentFsCredential)
    → accept_share share_id agent_id installation_id now accepted_at stamp t
      ≡ (t', ok (share', issued))
    → (share : AgentFsShareRecord) × (resolved : ResolvedServiceFilesystem) × (find
          (λ s. s.share_id == share_id)
          t.shares
        ≡ some share)
      × (resolve_filesystem_with_source share.fs_id t ≡ ok resolved)
      × ((share.target_agent_id == agent_id
            && (is_none share.revoked_at_ms && not (expired now share.expires_at_ms)))
          ≡ true)
      × (has_capability resolved.fs t.grants agent_id read ≡ true)
      × (any
            (λ g. g.fs_id == resolved.fs.fs_id && (backs share g && contains g.capabilities read))
            t.grants
          ≡ true)
      × (issued.binding.fs_id ≡ resolved.fs.fs_id)
      × (issued.binding.agent_id ≡ agent_id)
unfolding accept_share
accept_share-readable share_id agent_id installation_id now accepted_at stamp t t' share' issued h =
    let body =
      finish_transaction-ok t t'
        (accept_body share_id agent_id installation_id now accepted_at stamp t) (share', issued)
        h in
    let (share, resolved, grant, v, _) =
      accept_body-IsAccepted share_id agent_id installation_id now accepted_at stamp t t' share'
        issued body in
    let (of_fs, of_agent, _, _) =
      issue_credential_for_resolved-binding resolved agent_id installation_id stamp
        (mark_accepted share accepted_at t) t' issued v.credential in
    (
      share,
      resolved,
      v.of_share,
      v.of_filesystem,
      sym (check_share-ok share agent_id now) ∙ v.valid,
      sym (require_capability-ok resolved.fs agent_id read t) ∙ v.readable,
      found_backing resolved.fs.fs_id share grant t.grants v.backed v.reads,
      of_fs,
      of_agent,
    )
