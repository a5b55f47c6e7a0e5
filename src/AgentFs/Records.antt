-- ===== src/AgentFs/Records.antt =====
-- The records of crates/sectiond/src/agentfs.rs that an AgentFS stores beside its filesystem and
-- grants. Times are milliseconds since 1970 and `data` of an event, which nothing reads, is left out.
use section.Base.{ℕ, Option, List}
use section.Base.Text.{Text}
use section.AgentFs.Access.{AgentFsRole, AgentFsAuthorization}

-- `SCHEMA_VERSION`
abbrev pub current_schema : ℕ
current_schema = 1

pub record AgentFsSourceProfileRecord : Type 0 where
  pub schema_version : ℕ
  pub source_profile_id : Text
  pub name : Text
  pub provider : Text
  pub created_at_ms : ℕ
  pub updated_at_ms : ℕ

pub record AgentFsShareRecord : Type 0 where
  pub schema_version : ℕ
  pub share_id : Text
  pub fs_id : Text
  pub target_agent_id : Text
  pub grant_id : Text
  pub role : AgentFsRole
  pub source_profile_id : Text
  pub created_by : Text
  pub created_at_ms : ℕ
  pub expires_at_ms : Option ℕ
  pub accepted_at_ms : Option ℕ
  pub revoked_at_ms : Option ℕ

pub record AgentFsCredentialBindingRecord : Type 0 where
  pub schema_version : ℕ
  pub credential_binding_id : Text
  pub fs_id : Text
  pub agent_id : Text
  pub installation_id : Text
  pub source_profile_id : Text
  pub issued_at_ms : ℕ
  pub expires_at_ms : ℕ

pub record AgentFsHookRecord : Type 0 where
  pub schema_version : ℕ
  pub hook_id : Text
  pub fs_id : Text
  pub name : Text
  pub event : Text
  pub command : List Text
  pub created_by_agent_id : Text
  pub created_at_ms : ℕ

pub record AgentFsHeadRecord : Type 0 where
  pub schema_version : ℕ
  pub fs_id : Text
  pub commit_id : Option Text
  pub updated_at_ms : ℕ

pub record AgentFsCommitPathRecord : Type 0 where
  pub path : Text
  pub kind : Text
  pub op : Text
  pub local_version : Option Text
  pub previous_version : Option Text

pub record AgentFsCommitStagingRecord : Type 0 where
  pub manifest_path : Text
  pub manifest_hash : Text

pub data AgentFsMaterializationState : Type 0 where
  pending materialized failed_to_materialize : AgentFsMaterializationState

pub record AgentFsProposalRecord : Type 0 where
  pub schema_version : ℕ
  pub proposal_id : Text
  pub fs_id : Text
  pub commit_id : Text
  pub base_commit_id : Option Text
  pub agent_id : Text
  pub summary : Text
  pub paths : List AgentFsCommitPathRecord
  pub authorized_by : Option AgentFsAuthorization
  pub staging_snapshot : AgentFsCommitStagingRecord
  pub status : Text
  pub created_at_ms : ℕ
  pub decided_at_ms : Option ℕ
  pub decided_by_agent_id : Option Text
  pub error : Option Text

pub record AgentFsCommitRecord : Type 0 where
  pub schema_version : ℕ
  pub commit_id : Text
  pub fs_id : Text
  pub parent_commit_id : Option Text
  pub base_commit_id : Option Text
  pub base_manifest_hash : Option Text
  pub agent_id : Text
  pub summary : Text
  pub paths : List AgentFsCommitPathRecord
  pub authorized_by : Option AgentFsAuthorization
  pub staging_snapshot : Option AgentFsCommitStagingRecord
  pub created_at_ms : ℕ
  pub materialization_state : AgentFsMaterializationState
  pub materialized_at_ms : Option ℕ
  pub error : Option Text

pub record AgentFsEventRecord : Type 0 where
  pub schema_version : ℕ
  pub event_id : Text
  pub seq : ℕ
  pub fs_id : Text
  pub kind : Text
  pub actor_agent_id : Text
  pub subject_id : Text
  pub path : Option Text
  pub created_at_ms : ℕ
