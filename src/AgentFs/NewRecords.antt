-- ===== src/AgentFs/NewRecords.antt =====
-- `validate_path_scope`, `grant_record`, `event_record`, `head_record` and `hook_record` of
-- crates/sectiond/src/agentfs.rs. The clock and the random digits are arguments.
use section.Base.{
  ℕ, not, ◌||◌, Option, none, some, List, [], ◌∷◌, ◌++◌, is_empty, any, ◌==◌, nat_eq, list_eq,
  Result, ok, ◌>>◌, guard,
}
use section.Base.Text.{Text, slash, codes, trim, split, starts_with}
use section.AgentFs.SourcePath.{is_reserved_metadata_path, dot_dot}
use section.AgentFs.Access.{AgentFsRole, capabilities, AgentFsRecord, AgentFsGrantRecord}
use section.AgentFs.Records.{
  current_schema, AgentFsHookRecord, AgentFsHeadRecord, AgentFsEventRecord,
}
use section.AgentFs.Metadata.{MetadataError}
use section.AgentFs.Metadata.Checks.{validate_hook, materialized_event}
use section.AgentFs.Metadata.Ids.{new_event_id}

pub data ScopeError : Type 0 where
  empty_scope absolute_scope reserved_scope invalid_scope no_scope : ScopeError

unfoldable pub validate_path_scope : Text → Result ScopeError (Unit {0})
validate_path_scope scope = do
  let scope = trim scope
  guard (not (is_empty scope)) empty_scope
  guard (not (starts_with scope (slash ∷ []))) absolute_scope
  guard (not (is_reserved_metadata_path scope)) reserved_scope
  guard (not (any (λ segment. is_empty segment || segment == dot_dot) (split slash scope)))
      invalid_scope

unfoldable pub each_scope : List Text → Result ScopeError (Unit {0})
unfolding validate_path_scope
each_scope [] = ok tt
each_scope (scope ∷ scopes) = validate_path_scope scope >> each_scope scopes

-- The check of the scopes of a grant, which `fs_grant` makes too.
unfoldable pub validate_scopes : Option (List Text) → Result ScopeError (Unit {0})
unfolding each_scope
validate_scopes none = ok tt
validate_scopes (some scopes) = guard (not (is_empty scopes)) no_scope >> each_scope scopes

unfoldable pub grant_record :
    AgentFsRecord
    → Text
    → AgentFsRole
    → Text
    → Option (List Text)
    → Text
    → ℕ
    → Result ScopeError AgentFsGrantRecord
unfolding validate_scopes
grant_record fs agent_id role granted_by path_scopes random now = do
  validate_scopes path_scopes
  ok record {
    schema_version = current_schema;
    grant_id = codes "grt_" ++ random;
    fs_id = fs.fs_id;
    agent_id = agent_id;
    role = role;
    capabilities = capabilities role;
    path_scopes = path_scopes;
    granted_by = granted_by;
    created_at_ms = now;
    revoked_at_ms = none;
    revoked_by = none;
  }

unfoldable pub head_record : Text → Option Text → ℕ → AgentFsHeadRecord
head_record fs_id commit_id now = record {
  schema_version = current_schema;
  fs_id = fs_id;
  commit_id = commit_id;
  updated_at_ms = now;
}

unfoldable pub event_record :
    Text → Text → Text → Text → Option Text → Text → ℕ → AgentFsEventRecord
unfolding new_event_id
event_record fs_id kind actor_agent_id subject_id path random now = record {
  schema_version = current_schema;
  event_id = new_event_id now random;
  seq = 0;
  fs_id = fs_id;
  kind = kind;
  actor_agent_id = actor_agent_id;
  subject_id = subject_id;
  path = path;
  created_at_ms = now;
}

unfoldable pub new_hook : Text → Text → List Text → Text → Text → ℕ → AgentFsHookRecord
new_hook fs_id name command created_by_agent_id random now = record {
  schema_version = current_schema;
  hook_id = codes "hook_" ++ random;
  fs_id = fs_id;
  name = trim name;
  event = materialized_event;
  command = command;
  created_by_agent_id = created_by_agent_id;
  created_at_ms = now;
}

unfoldable pub hook_record :
    Text → Text → List Text → Text → Text → ℕ → Result MetadataError AgentFsHookRecord
unfolding new_hook validate_hook
hook_record fs_id name command created_by_agent_id random now =
    let hook = new_hook fs_id name command created_by_agent_id random now in
    validate_hook hook >> ok hook
