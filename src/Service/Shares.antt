-- ===== src/Service/Shares.antt =====
-- Shares and credentials of the control service, crates/sectiond/src/control_service.rs: `fs_share`,
-- `available_shares`, `accept_share` and `issue_credential`.
pub mod Access
pub mod Revoked
use section.Base.{
  ℕ, ◌+◌, Bool, true, false, not, ◌&&◌, Option, none, some, List, [], ◌∷◌, ◌++◌, any, filter, find,
  map, leb, is_none, is_ok, contains, if◌then◌else◌, ◌==◌, nat_eq, list_eq, Result, ok, err, ◌>>=◌,
  ◌>>◌, guard,
}
use section.Base.Text.{Text, codes}
use section.AgentFs.Access.{
  read, manage, capability_eq, AgentFsRecord, AgentFsGrantRecord, is_active, list_grants, applies,
  authorize_capability_for_fs,
}
use section.AgentFs.Records.{
  current_schema, AgentFsSourceProfileRecord, AgentFsShareRecord, AgentFsCredentialBindingRecord,
}
use section.Service.Grants.{checked}
use section.Service.Filesystems.{ResolvedServiceFilesystem, resolve_filesystem_with_source}
use section.Service.{
  SourceConfig, Tables, ServiceError, grant_denied, unknown_fs, unknown_agent, sql_error, Body,
  Stamp, finish_transaction, order_by, key_leb, found, require_capability, agent_exists,
}

pub record AgentFsShareResult : Type 0 where
  pub share : AgentFsShareRecord
  pub fs : AgentFsRecord
  pub source_profile : AgentFsSourceProfileRecord

pub record IssuedAgentFsCredential : Type 0 where
  pub binding : AgentFsCredentialBindingRecord
  pub source_profile : AgentFsSourceProfileRecord
  pub source : SourceConfig

abbrev pub credential_ttl_ms : ℕ
credential_ttl_ms = 3600000

unfoldable pub insert_share : AgentFsShareRecord → Tables → Result ServiceError Tables
insert_share share t = do
  guard (not (any (λ s. s.share_id == share.share_id) t.shares)) sql_error
  ok (record t { shares = t.shares ++ share ∷ [] })

unfoldable pub new_share :
    AgentFsRecord → AgentFsGrantRecord → Text → Text → Stamp → AgentFsShareRecord
new_share fs grant target actor stamp = record {
  schema_version = current_schema;
  share_id = codes "shr_" ++ stamp.random;
  fs_id = fs.fs_id;
  target_agent_id = target;
  grant_id = grant.grant_id;
  role = grant.role;
  source_profile_id = fs.source_profile_id;
  created_by = actor;
  created_at_ms = stamp.at;
  expires_at_ms = none;
  accepted_at_ms = none;
  revoked_at_ms = none;
}

unfoldable pub share_body : Text → Text → Text → Stamp → Tables → Body AgentFsShareResult
unfolding resolve_filesystem_with_source require_capability list_grants new_share insert_share
share_body fs_id actor target stamp t = do
  resolved ← resolve_filesystem_with_source fs_id t
  require_capability resolved.fs actor manage t
  grant ← found grant_denied (find (applies target read) (list_grants t.grants resolved.fs.fs_id))
  let share = new_share resolved.fs grant target actor stamp
  t' ← insert_share share t
  ok (t', record { share = share; fs = resolved.fs; source_profile = resolved.source_profile })

unfoldable pub fs_share :
    Text → Text → Text → Stamp → Tables → Tables × Result ServiceError AgentFsShareResult
unfolding agent_exists share_body finish_transaction
fs_share fs_id actor target stamp t =
    finish_transaction t (
      checked (guard (agent_exists target t) unknown_agent) (share_body fs_id actor target stamp t))

-- `expires_at_ms.is_some_and(|expires| expires <= now)`
abbrev pub expired : ℕ → Option ℕ → Bool
expired now none = false
expired now (some expires) = leb expires now

-- One turn of the loop of `available_shares`, for a share that has not expired.
unfoldable pub offer :
    Text
    → Tables
    → AgentFsShareRecord
    → List AgentFsShareResult
    → Result ServiceError (List AgentFsShareResult)
unfolding resolve_filesystem_with_source authorize_capability_for_fs
offer agent_id t share available = do
  resolved ← resolve_filesystem_with_source share.fs_id t
  let offered : AgentFsShareResult = record {
    share = share;
    fs = resolved.fs;
    source_profile = resolved.source_profile;
  }
  ok (
      if is_ok (authorize_capability_for_fs resolved.fs t.grants agent_id read)
      then available ++ offered ∷ []
      else available)

-- The loop, with `available`.
unfoldable pub offers :
    Text
    → ℕ
    → Tables
    → List AgentFsShareResult
    → List AgentFsShareRecord
    → Result ServiceError (List AgentFsShareResult)
unfolding offer
offers agent_id now t available [] = ok available
offers agent_id now t available (share ∷ shares) = do
  available' ←
      if expired now share.expires_at_ms then ok available else offer agent_id t share available
  offers agent_id now t available' shares

abbrev pub share_no_later : AgentFsShareRecord → AgentFsShareRecord → Bool
share_no_later s r = key_leb (s.created_at_ms, s.share_id) (r.created_at_ms, r.share_id)

unfoldable pub available_shares : Text → ℕ → Tables → Result ServiceError (List AgentFsShareResult)
unfolding order_by offers
available_shares agent_id now t = offers agent_id now t [] (
    order_by share_no_later (
      filter
        (λ s.
          s.target_agent_id == agent_id && (is_none s.accepted_at_ms && is_none s.revoked_at_ms))
        t.shares))

unfoldable pub new_binding :
    ResolvedServiceFilesystem → Text → Text → Stamp → AgentFsCredentialBindingRecord
new_binding resolved agent_id installation_id stamp = record {
  schema_version = current_schema;
  credential_binding_id = codes "cred_" ++ stamp.random;
  fs_id = resolved.fs.fs_id;
  agent_id = agent_id;
  installation_id = installation_id;
  source_profile_id = resolved.fs.source_profile_id;
  issued_at_ms = stamp.at;
  expires_at_ms = stamp.at + credential_ttl_ms;
}

unfoldable pub issue_credential_for_resolved :
    ResolvedServiceFilesystem → Text → Text → Stamp → Tables → Body IssuedAgentFsCredential
unfolding new_binding
issue_credential_for_resolved resolved agent_id installation_id stamp t = do
  let binding = new_binding resolved agent_id installation_id stamp
  guard
      (not
        (any (λ b. b.credential_binding_id == binding.credential_binding_id) t.credential_bindings))
      sql_error
  ok (
    record t { credential_bindings = t.credential_bindings ++ binding ∷ [] },
    record {
      binding = binding;
      source_profile = resolved.source_profile;
      source = resolved.source;
    },
  )

unfoldable pub issue_body : Text → Text → Text → Stamp → Tables → Body IssuedAgentFsCredential
unfolding resolve_filesystem_with_source require_capability issue_credential_for_resolved
issue_body fs_id agent_id installation_id stamp t = do
  resolved ← resolve_filesystem_with_source fs_id t
  require_capability resolved.fs agent_id read t
  issue_credential_for_resolved resolved agent_id installation_id stamp t

unfoldable pub issue_credential :
    Text → Text → Text → Stamp → Tables → Tables × Result ServiceError IssuedAgentFsCredential
unfolding issue_body finish_transaction
issue_credential fs_id agent_id installation_id stamp t =
    finish_transaction t (issue_body fs_id agent_id installation_id stamp t)

-- The checks of `accept_share` on the share itself.
unfoldable pub check_share : AgentFsShareRecord → Text → ℕ → Result ServiceError (Unit {0})
check_share share agent_id now = do
  guard (share.target_agent_id == agent_id) grant_denied
  guard (is_none share.revoked_at_ms) grant_denied
  guard (not (expired now share.expires_at_ms)) grant_denied

-- The share as accepted, and the `UPDATE` if it was not accepted before.
unfoldable pub accepted : AgentFsShareRecord → ℕ → AgentFsShareRecord
accepted share now =
    if is_none share.accepted_at_ms then record share { accepted_at_ms = some now } else share

unfoldable pub mark_accepted : AgentFsShareRecord → ℕ → Tables → Tables
mark_accepted share now t =
    if is_none share.accepted_at_ms
    then record t {
      shares =
          map
            (λ s.
              if s.share_id == share.share_id then record s { accepted_at_ms = some now } else s)
            t.shares;
    }
    else t

-- The readings of the clock: for the expiry, for the acceptance, and in the stamp of the credential.
unfoldable pub accept_body :
    Text
    → Text
    → Text
    → ℕ
    → ℕ
    → Stamp
    → Tables
    → Body (AgentFsShareRecord × IssuedAgentFsCredential)
unfolding check_share resolve_filesystem_with_source require_capability list_grants accepted
    mark_accepted issue_credential_for_resolved
accept_body share_id agent_id installation_id now accepted_at stamp t = do
  share ← found unknown_fs (find (λ s. s.share_id == share_id) t.shares)
  check_share share agent_id now
  resolved ← resolve_filesystem_with_source share.fs_id t
  require_capability resolved.fs agent_id read t
  grant ← found grant_denied (
      find (λ g. g.grant_id == share.grant_id && is_active g)
        (list_grants t.grants resolved.fs.fs_id))
  guard (contains grant.capabilities read) grant_denied
  (t', issued) ←
      issue_credential_for_resolved resolved agent_id installation_id stamp
        (mark_accepted share accepted_at t)
  ok (t', (accepted share accepted_at, issued))

unfoldable pub accept_share :
    Text
    → Text
    → Text
    → ℕ
    → ℕ
    → Stamp
    → Tables
    → Tables × Result ServiceError (AgentFsShareRecord × IssuedAgentFsCredential)
unfolding accept_body finish_transaction
accept_share share_id agent_id installation_id now accepted_at stamp t =
    finish_transaction t (accept_body share_id agent_id installation_id now accepted_at stamp t)
