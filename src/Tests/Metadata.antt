-- ===== src/Tests/Metadata.antt =====
-- Checks of records that are read from a source.
use section.Base.{◌≡◌, refl, true, false, ◌&&◌, none, some, [], ◌∷◌, ltb, all, is_empty, ok, is_ok}
use section.Base.Text.{Text, codes}
use section.AgentFs.Access.{AgentFsAuthorization, by_owner}
use section.AgentFs.SourcePath.{validate_source_relative_path}
use section.AgentFs.Records.{AgentFsCommitRecord, AgentFsCommitPathRecord, pending}
use section.AgentFs.Metadata.{
  validate_event_id, is_hex_of, validate_schema, validate_id_field, validate_non_empty,
  validate_agentfs_path_field, validate_authorization, validate_timestamp,
}
use section.AgentFs.Metadata.Checks.{
  validate_commit, validate_commit_path, validate_materialization,
}
use section.AgentFs.Metadata.Ids.{new_event_id, validate_event_id-new}
use section.AgentFs.Metadata.Commits.{may_commit, validate_commit-authorized}

abbrev digits : Text
digits = codes "0123456789abcdef"

abbrev pub owner_id : Text
owner_id = codes "agt_0123456789abcdef0123456789abcdef"

-- The time has thirteen digits.
validate_event_id-new_example :
    is_ok (validate_event_id (new_event_id 1700000000000 digits))
    ≡ (ltb 1700000000000 10000000000000 && is_hex_of 16 digits)
validate_event_id-new_example = validate_event_id-new 1700000000000 digits

abbrev changed : AgentFsCommitPathRecord
changed = record {
  path = codes "docs/a";
  kind = codes "file";
  op = codes "update";
  local_version = none;
  previous_version = none;
}

abbrev commit_of_owner : AgentFsCommitRecord
commit_of_owner = record {
  schema_version = 1;
  commit_id = codes "cmt_0123456789abcdef0123456789abcdef";
  fs_id = codes "fs_0123456789abcdef0123456789abcdef";
  parent_commit_id = none;
  base_commit_id = none;
  base_manifest_hash = none;
  agent_id = owner_id;
  summary = codes "edit";
  paths = changed ∷ [];
  authorized_by = some (by_owner owner_id);
  staging_snapshot = some (record { manifest_path = codes "m"; manifest_hash = codes "h" });
  created_at_ms = 1;
  materialization_state = pending;
  materialized_at_ms = none;
  error = none;
}

is_accepted : validate_commit commit_of_owner ≡ ok tt
unfolding validate_commit validate_schema validate_id_field validate_non_empty validate_commit_path
    validate_agentfs_path_field validate_source_relative_path validate_authorization
    validate_timestamp validate_materialization
is_accepted = refl

validate_commit-authorized_example :
    (is_empty commit_of_owner.paths ≡ false)
    × (all (λ p. is_ok (validate_source_relative_path p.path)) commit_of_owner.paths ≡ true)
    × (a : AgentFsAuthorization) × (commit_of_owner.authorized_by ≡ some a)
    × (may_commit a ≡ true)
validate_commit-authorized_example = validate_commit-authorized commit_of_owner is_accepted
