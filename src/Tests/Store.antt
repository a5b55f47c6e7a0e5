-- ===== src/Tests/Store.antt =====
-- A store of the control service with two agents, and runs of its operations.
use section.Base.{ℕ, ◌≡◌, refl, none, some, [], ◌∷◌, Result, ok, err}
use section.Base.Text.{Text, codes}
use section.AgentFs.Access.{reader, writer, read, AgentFsRecord, AgentFsGrantRecord}
use section.AgentFs.Records.{AgentFsSourceProfileRecord, AgentFsShareRecord}
use section.Service.{SourceConfig, AgentRow, Tables, ServiceError, grant_denied, Stamp}
use section.Service.Grants.{
  GrantMutationResult, RevokeMutationResult, fs_grant, fs_revoke, active_role,
}

abbrev pub alice : Text
alice = codes "agt_00000000000000000000000000000001"

abbrev pub bob : Text
bob = codes "agt_00000000000000000000000000000002"

abbrev pub profile : AgentFsSourceProfileRecord
profile = record {
  schema_version = 1;
  source_profile_id = codes "p1";
  name = codes "disk";
  provider = codes "fs";
  created_at_ms = 1;
  updated_at_ms = 1;
}

abbrev pub config : SourceConfig
config = record { provider = codes "fs"; options = [] }

abbrev pub work : AgentFsRecord
work = record {
  schema_version = 1;
  fs_id = codes "fs_1";
  name = codes "work";
  owner_agent_id = alice;
  source_profile_id = codes "p1";
  source_name = codes "fs_1";
  created_at_ms = 1;
}

abbrev pub agent_row : Text → Text → AgentRow
agent_row agent_id name = record {
  agent_id = agent_id;
  name = name;
  auth_token_hash = codes "sha256:";
  created_at_ms = 1;
  updated_at_ms = 1;
}

abbrev pub bob_reads : AgentFsGrantRecord
bob_reads = record {
  schema_version = 1;
  grant_id = codes "grt_1";
  fs_id = codes "fs_1";
  agent_id = bob;
  role = reader;
  capabilities = read ∷ [];
  path_scopes = none;
  granted_by = alice;
  created_at_ms = 2;
  revoked_at_ms = none;
  revoked_by = none;
}

abbrev pub offered : AgentFsShareRecord
offered = record {
  schema_version = 1;
  share_id = codes "shr_1";
  fs_id = codes "fs_1";
  target_agent_id = bob;
  grant_id = codes "grt_1";
  role = reader;
  source_profile_id = codes "p1";
  created_by = alice;
  created_at_ms = 3;
  expires_at_ms = none;
  accepted_at_ms = none;
  revoked_at_ms = none;
}

abbrev pub store : Tables
store = record {
  agents = agent_row alice (codes "alice") ∷ agent_row bob (codes "bob") ∷ [];
  installations = [];
  source_profiles = (profile, config) ∷ [];
  filesystems = work ∷ [];
  grants = bob_reads ∷ [];
  shares = offered ∷ [];
  credential_bindings = [];
  events = [];
  hooks = [];
}

abbrev pub stamp : Text → Stamp
stamp digits = record { at = 7; random = digits }

abbrev pub stamps : ℕ → Stamp
stamps k = stamp (k ∷ [])

abbrev pub value_of : {A : Type 0} → Result ServiceError A → A → A
value_of (ok a) a' = a
value_of (err e) a' = a'

abbrev pub revoked_now : Tables × Result ServiceError RevokeMutationResult
revoked_now = fs_revoke (codes "work") alice bob 5 stamps store

abbrev pub granted_now : Tables × Result ServiceError GrantMutationResult
granted_now =
    fs_grant (codes "work") alice bob writer none 5 stamps (stamp (codes "2")) (stamp (codes "3"))
      store

abbrev pub no_revocation : RevokeMutationResult
no_revocation = record { revoked = []; events = [] }

abbrev pub no_mutation : GrantMutationResult
no_mutation = record { grant = bob_reads; revoked = []; events = [] }

-- The reader has become a writer, and revoking it leaves it nothing.
role_after :
    (active_role work bob granted_now.0 ≡ some writer) × (active_role work bob revoked_now.0 ≡ none)
unfolding fs_grant fs_revoke active_role
role_after = (refl, refl)

-- An agent without grants may not revoke, and the store stays as it was.
not_by_bob : fs_revoke (codes "work") bob bob 5 stamps store ≡ (store, err grant_denied)
unfolding fs_revoke
not_by_bob = refl
