-- ===== src/AgentFs/Metadata/Checks.antt =====
-- `validate_metadata` of each record of crates/sectiond/src/agentfs.rs, in the order of its checks.
use section.Base.{
  ℕ, Bool, true, not, ◌||◌, Option, none, some, is_empty, ltb, ◌==◌, nat_eq, list_eq, Result, ok,
  err, ◌>>=◌, ◌>>◌, guard, is_some, String,
}
use section.Base.Text.{Text, codes, trim}
use section.AgentFs.Access.{capability_eq, capabilities, AgentFsRecord, AgentFsGrantRecord}
use section.AgentFs.HeadLock.{AgentFsHeadLockRecord}
use section.AgentFs.Records.{
  AgentFsSourceProfileRecord, AgentFsShareRecord, AgentFsCredentialBindingRecord, AgentFsHookRecord,
  AgentFsHeadRecord, AgentFsCommitPathRecord, AgentFsMaterializationState, pending, materialized,
  failed_to_materialize, AgentFsProposalRecord, AgentFsCommitRecord, AgentFsEventRecord,
}
use section.AgentFs.Metadata.{
  MetadataError, malformed_record, Checked, optional, each, validate_schema, validate_id_field,
  validate_event_id, validate_non_empty, validate_timestamp, validate_agentfs_path_field,
  validate_authorization,
}

unfoldable pub validate_fs : AgentFsRecord → Checked
validate_fs r = do
  validate_schema r.schema_version
  validate_id_field "fs_id" r.fs_id (codes "fs_") 32
  validate_non_empty "name" r.name
  validate_id_field "owner_agent_id" r.owner_agent_id (codes "agt_") 32
  validate_id_field "source_profile_id" r.source_profile_id (codes "srcp_") 32
  validate_non_empty "source_name" r.source_name
  validate_timestamp "created_at_ms" r.created_at_ms

unfoldable pub validate_source_profile : AgentFsSourceProfileRecord → Checked
validate_source_profile r = do
  validate_schema r.schema_version
  validate_id_field "source_profile_id" r.source_profile_id (codes "srcp_") 32
  validate_non_empty "name" r.name
  validate_non_empty "provider" r.provider
  validate_timestamp "created_at_ms" r.created_at_ms
  validate_timestamp "updated_at_ms" r.updated_at_ms

unfoldable pub validate_grant : AgentFsGrantRecord → Checked
validate_grant r = do
  validate_schema r.schema_version
  validate_id_field "grant_id" r.grant_id (codes "grt_") 32
  validate_id_field "fs_id" r.fs_id (codes "fs_") 32
  validate_id_field "agent_id" r.agent_id (codes "agt_") 32
  validate_id_field "granted_by" r.granted_by (codes "agt_") 32
  validate_timestamp "created_at_ms" r.created_at_ms
  guard (r.capabilities == capabilities r.role) (malformed_record "capabilities")
  optional (validate_timestamp "revoked_at_ms") r.revoked_at_ms
  optional (λ by. validate_id_field "revoked_by" by (codes "agt_") 32) r.revoked_by

unfoldable pub validate_share : AgentFsShareRecord → Checked
validate_share r = do
  validate_schema r.schema_version
  validate_id_field "share_id" r.share_id (codes "shr_") 32
  validate_id_field "fs_id" r.fs_id (codes "fs_") 32
  validate_id_field "target_agent_id" r.target_agent_id (codes "agt_") 32
  validate_id_field "grant_id" r.grant_id (codes "grt_") 32
  validate_id_field "source_profile_id" r.source_profile_id (codes "srcp_") 32
  validate_id_field "created_by" r.created_by (codes "agt_") 32
  validate_timestamp "created_at_ms" r.created_at_ms
  optional (validate_timestamp "expires_at_ms") r.expires_at_ms
  optional (validate_timestamp "accepted_at_ms") r.accepted_at_ms
  optional (validate_timestamp "revoked_at_ms") r.revoked_at_ms

unfoldable pub validate_credential_binding : AgentFsCredentialBindingRecord → Checked
validate_credential_binding r = do
  validate_schema r.schema_version
  validate_id_field "credential_binding_id" r.credential_binding_id (codes "cred_") 32
  validate_id_field "fs_id" r.fs_id (codes "fs_") 32
  validate_id_field "agent_id" r.agent_id (codes "agt_") 32
  validate_id_field "installation_id" r.installation_id (codes "ins_") 32
  validate_id_field "source_profile_id" r.source_profile_id (codes "srcp_") 32
  validate_timestamp "issued_at_ms" r.issued_at_ms
  validate_timestamp "expires_at_ms" r.expires_at_ms

abbrev pub materialized_event : Text
materialized_event = codes "commit.materialized"

unfoldable pub validate_hook : AgentFsHookRecord → Checked
validate_hook r = do
  validate_schema r.schema_version
  validate_id_field "hook_id" r.hook_id (codes "hook_") 32
  validate_id_field "fs_id" r.fs_id (codes "fs_") 32
  validate_non_empty "name" r.name
  guard (r.event == materialized_event) (malformed_record "event")
  guard (not (is_empty r.command)) (malformed_record "command")
  each (validate_non_empty "command") r.command
  validate_id_field "created_by_agent_id" r.created_by_agent_id (codes "agt_") 32
  validate_timestamp "created_at_ms" r.created_at_ms

unfoldable pub validate_commit_path : AgentFsCommitPathRecord → Checked
validate_commit_path r = do
  validate_agentfs_path_field "paths.path" r.path
  guard (r.kind == codes "file" || r.kind == codes "dir") (malformed_record "paths.kind")
  guard (r.op == codes "create" || (r.op == codes "update" || r.op == codes "delete"))
      (malformed_record "paths.op")

unfoldable pub validate_proposal : AgentFsProposalRecord → Checked
validate_proposal r = do
  validate_schema r.schema_version
  validate_id_field "proposal_id" r.proposal_id (codes "prop_") 32
  validate_id_field "fs_id" r.fs_id (codes "fs_") 32
  validate_id_field "commit_id" r.commit_id (codes "cmt_") 32
  optional (λ id. validate_id_field "base_commit_id" id (codes "cmt_") 32) r.base_commit_id
  validate_id_field "agent_id" r.agent_id (codes "agt_") 32
  validate_non_empty "summary" (trim r.summary)
  guard (not (is_empty r.paths)) (malformed_record "paths")
  each validate_commit_path r.paths
  guard
      (r.status == codes "proposed"
        || (r.status == codes "accepted" || r.status == codes "rejected"))
      (malformed_record "status")
  validate_timestamp "created_at_ms" r.created_at_ms
  optional (validate_timestamp "decided_at_ms") r.decided_at_ms
  optional (λ id. validate_id_field "decided_by_agent_id" id (codes "agt_") 32)
      r.decided_by_agent_id

unfoldable pub validate_head : AgentFsHeadRecord → Checked
validate_head r = do
  validate_schema r.schema_version
  validate_id_field "fs_id" r.fs_id (codes "fs_") 32
  optional (λ id. validate_id_field "commit_id" id (codes "cmt_") 32) r.commit_id
  validate_timestamp "updated_at_ms" r.updated_at_ms

unfoldable pub validate_head_lock : AgentFsHeadLockRecord → Checked
validate_head_lock r = do
  validate_schema r.schema_version
  validate_id_field "fs_id" r.fs_id (codes "fs_") 32
  validate_id_field "lock_token" r.lock_token (codes "lck_") 32
  validate_id_field "owner_agent_id" r.owner_agent_id (codes "agt_") 32
  validate_timestamp "created_at_ms" r.created_at_ms
  validate_timestamp "expires_at_ms" r.expires_at_ms

abbrev pub blank : Option Text → Bool
blank none = true
blank (some error) = is_empty (trim error)

-- The `match` at the end of the check of a commit.
unfoldable pub validate_materialization :
    AgentFsMaterializationState → Option ℕ → Option Text → Checked
validate_materialization materialized at error =
    guard (is_some at) (malformed_record "materialized_at_ms")
validate_materialization failed_to_materialize at error =
    guard (not (blank error)) (malformed_record "error")
validate_materialization pending at error = ok tt

abbrev pub require {ℓ} : {A : Type ℓ} → String → Option A → Result MetadataError A
require field none = err (malformed_record field)
require field (some a) = ok a

unfoldable pub validate_commit : AgentFsCommitRecord → Checked
validate_commit r = do
  validate_schema r.schema_version
  validate_id_field "commit_id" r.commit_id (codes "cmt_") 32
  validate_id_field "fs_id" r.fs_id (codes "fs_") 32
  optional (λ id. validate_id_field "parent_commit_id" id (codes "cmt_") 32) r.parent_commit_id
  optional (λ id. validate_id_field "base_commit_id" id (codes "cmt_") 32) r.base_commit_id
  validate_id_field "agent_id" r.agent_id (codes "agt_") 32
  validate_non_empty "summary" (trim r.summary)
  guard (not (is_empty r.paths)) (malformed_record "paths")
  each validate_commit_path r.paths
  authorized_by ← require "authorized_by" r.authorized_by
  validate_authorization authorized_by
  staging ← require "staging_snapshot" r.staging_snapshot
  validate_non_empty "staging_snapshot.manifest_path" staging.manifest_path
  validate_non_empty "staging_snapshot.manifest_hash" staging.manifest_hash
  validate_timestamp "created_at_ms" r.created_at_ms
  validate_materialization r.materialization_state r.materialized_at_ms r.error

unfoldable pub validate_event : AgentFsEventRecord → Checked
validate_event r = do
  validate_schema r.schema_version
  validate_event_id r.event_id
  guard (ltb 0 r.seq) (malformed_record "seq")
  validate_id_field "fs_id" r.fs_id (codes "fs_") 32
  validate_non_empty "kind" r.kind
  validate_id_field "actor_agent_id" r.actor_agent_id (codes "agt_") 32
  validate_non_empty "subject_id" r.subject_id
  optional (validate_agentfs_path_field "path") r.path
  validate_timestamp "created_at_ms" r.created_at_ms
