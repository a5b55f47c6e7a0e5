-- ===== src/Service/Unchanged.antt =====
-- The operations on shares, credentials, hooks and agents leave the filesystems, the grants and the
-- events of the store as they were.
use section.Base.{ℕ, ◌≡◌, refl, subst, ◌∙◌, Option, none, some, List, ok, err, >>=-eq-ok, arith}
use section.Base.Text.{Text}
use section.AgentFs.Access.{read}
use section.AgentFs.Records.{AgentFsShareRecord, AgentFsHookRecord}
use section.Service.{AgentRow, Tables, Body, Stamp, finish_transaction, require_capability}
use section.Service.Hooks.{insert_hook, add_body, remove_body}
use section.Service.Filesystems.{ResolvedServiceFilesystem, resolve_filesystem_with_source}
use section.Service.Shares.{
  AgentFsShareResult, IssuedAgentFsCredential, share_body, insert_share,
  issue_credential_for_resolved, issue_body, accept_body, mark_accepted,
}
use section.Service.Shares.Access.{accept_body-IsAccepted}
use section.Service.Agents.{
  AgentIdentityRecord, find_agent_by_name, login_identity, known_agent, register_agent,
  login_installation, new_installation, insert_installation, login_body, touch_agent,
  touch_installation,
}

pub record Kept (t t' : Tables) : Type 0 where
  pub filesystems : t'.filesystems ≡ t.filesystems
  pub grants : t'.grants ≡ t.grants
  pub events : t'.events ≡ t.events

Kept-refl : (t : Tables) → Kept t t
Kept-refl t = record { filesystems = refl; grants = refl; events = refl }

-- A body that keeps the three tables gives a transaction that does.
pub finish_transaction-Kept :
    {A : Type 0} (t : Tables) (body : Body A)
    → ((t' : Tables) (value : A) → body ≡ ok (t', value) → Kept t t')
    → Kept t (finish_transaction t body).0
unfolding finish_transaction
finish_transaction-Kept t (ok (t', value)) keep = keep t' value refl
finish_transaction-Kept t (err e) keep = Kept-refl t

pub add_body-Kept :
    (fs_id actor name : Text) (command : List Text) (stamp : Stamp) (t t' : Tables)
    (hook : AgentFsHookRecord)
    → add_body fs_id actor name command stamp t ≡ ok (t', hook)
    → Kept t t'
unfolding add_body insert_hook
add_body-Kept fs_id actor name command stamp t t' hook h = ground arith

pub remove_body-Kept :
    (fs_id actor hook_id : Text) (t t' : Tables) (hook : AgentFsHookRecord)
    → remove_body fs_id actor hook_id t ≡ ok (t', hook)
    → Kept t t'
unfolding remove_body
remove_body-Kept fs_id actor hook_id t t' hook h = ground arith

pub share_body-Kept :
    (fs_id actor target : Text) (stamp : Stamp) (t t' : Tables) (result : AgentFsShareResult)
    → share_body fs_id actor target stamp t ≡ ok (t', result)
    → Kept t t'
unfolding share_body insert_share
share_body-Kept fs_id actor target stamp t t' result h = ground arith

issue_credential_for_resolved-Kept :
    (resolved : ResolvedServiceFilesystem) (agent_id installation_id : Text) (stamp : Stamp)
    (t t' : Tables) (issued : IssuedAgentFsCredential)
    → issue_credential_for_resolved resolved agent_id installation_id stamp t ≡ ok (t', issued)
    → Kept t t'
unfolding issue_credential_for_resolved
issue_credential_for_resolved-Kept resolved agent_id installation_id stamp t t' issued h =
    ground arith

pub issue_body-Kept :
    (fs_id agent_id installation_id : Text) (stamp : Stamp) (t t' : Tables)
    (issued : IssuedAgentFsCredential)
    → issue_body fs_id agent_id installation_id stamp t ≡ ok (t', issued)
    → Kept t t'
unfolding issue_body
issue_body-Kept fs_id agent_id installation_id stamp t t' issued h =
    let (resolved, _, h1) = >>=-eq-ok (resolve_filesystem_with_source fs_id t) _ h in
    let (_, _, h2) = >>=-eq-ok (require_capability resolved.fs agent_id read t) _ h1 in
    issue_credential_for_resolved-Kept resolved agent_id installation_id stamp t t' issued h2

mark_accepted-Kept :
    (share : AgentFsShareRecord) (now : ℕ) (t : Tables) → Kept t (mark_accepted share now t)
unfolding mark_accepted
mark_accepted-Kept share now t = ground arith

pub accept_body-Kept :
    (share_id agent_id installation_id : Text) (now accepted_at : ℕ) (stamp : Stamp) (t t' : Tables)
    (share' : AgentFsShareRecord) (issued : IssuedAgentFsCredential)
    → accept_body share_id agent_id installation_id now accepted_at stamp t
      ≡ ok (t', (share', issued))
    → Kept t t'
accept_body-Kept share_id agent_id installation_id now accepted_at stamp t t' share' issued h =
    let (share, resolved, _, v, _) =
      accept_body-IsAccepted share_id agent_id installation_id now accepted_at stamp t t' share'
        issued h in
    let first = mark_accepted-Kept share accepted_at t in
    let second =
      issue_credential_for_resolved-Kept resolved agent_id installation_id stamp
        (mark_accepted share accepted_at t) t' issued v.credential in
    record {
      filesystems = second.filesystems ∙ first.filesystems;
      grants = second.grants ∙ first.grants;
      events = second.events ∙ first.events;
    }

login_identity-Kept :
    (sha256_hex : Text → Text) (known : Option AgentRow) (name : Text) (given : Option Text)
    (random token : Text) (now : ℕ) (t t' : Tables) (agent : AgentIdentityRecord)
    → login_identity sha256_hex known name given random token now t ≡ ok (t', agent)
    → Kept t t'
unfolding login_identity known_agent register_agent touch_agent
login_identity-Kept sha256_hex none name given random token now t t' agent h = ground arith
login_identity-Kept sha256_hex (some row) name given random token now t t' agent h = ground arith

login_installation-Kept :
    (installation : Option Text) (agent_id : Text) (now : ℕ) (random : Text) (t t' : Tables)
    (id : Text)
    → login_installation installation agent_id now random t ≡ ok (t', id)
    → Kept t t'
unfolding login_installation new_installation insert_installation touch_installation
login_installation-Kept none agent_id now random t t' id h = ground arith
login_installation-Kept (some installation) agent_id now random t t' id h = ground arith

pub login_body-Kept :
    (sha256_hex : Text → Text) (name : Text) (installation given : Option Text) (now : ℕ)
    (random token installation_random : Text) (t t' : Tables) (agent : AgentIdentityRecord)
    → login_body sha256_hex name installation given now random token installation_random t
      ≡ ok (t', agent)
    → Kept t t'
unfolding login_body
login_body-Kept sha256_hex name installation given now random token installation_random t t' agent
      h =
    let known = find_agent_by_name name t in
    let ((t1, identity), h1, h2) =
      >>=-eq-ok (login_identity sha256_hex known name given random token now t) _ h in
    let ((t2, id), h3, h4) =
      >>=-eq-ok (login_installation installation identity.agent_id now installation_random t1) _
        h2 in
    let same : t2 ≡ t' = ground (arith, h4) in
    let first = login_identity-Kept sha256_hex known name given random token now t t1 identity h1 in
    let second =
      login_installation-Kept installation identity.agent_id now installation_random t1 t2 id h3 in
    subst (Kept t) same (record {
      filesystems = second.filesystems ∙ first.filesystems;
      grants = second.grants ∙ first.grants;
      events = second.events ∙ first.events;
    })
