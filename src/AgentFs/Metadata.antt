-- ===== src/AgentFs/Metadata.antt =====
-- The checks on records that are read from a source: the `validate_` functions of crates/sectiond/src/agentfs.rs. A time is a natural number, so a negative
-- one is left out: 0 stands for all times that are refused. The file that an error names is left out.
pub mod Checks
pub mod Ids
pub mod Commits
use section.Base.{
  ℕ, Bool, true, false, not, ◌&&◌, ◌||◌, Option, none, some, List, [], ◌∷◌, all, is_empty,
  if◌then◌else◌, ltb, leb, ◌==◌, nat_eq, list_eq, Result, ok, err, ◌>>=◌, ◌>>◌, guard, is_some,
  is_none, is_ok, length, String, contains, nat_beq,
}
use section.Base.Text.{Text, codes, strip_prefix, split_once, trim}
use section.AgentFs.Access.{
  AgentFsRole, AgentFsCapability, commit, capability_eq, capabilities, role_has_capability,
  AgentFsRecord, AgentFsGrantRecord, AgentFsAuthorization, by_owner, by_grant,
}
use section.AgentFs.HeadLock.{AgentFsHeadLockRecord}
use section.AgentFs.SourcePath.{validate_source_relative_path}
use section.AgentFs.Records.{
  current_schema, AgentFsSourceProfileRecord, AgentFsShareRecord, AgentFsCredentialBindingRecord,
  AgentFsHookRecord, AgentFsHeadRecord, AgentFsCommitPathRecord, AgentFsCommitStagingRecord,
  AgentFsMaterializationState, pending, materialized, failed_to_materialize, AgentFsProposalRecord,
  AgentFsCommitRecord, AgentFsEventRecord,
}

-- The field that is malformed.
pub data MetadataError : Type 0 where
  malformed_record : String → MetadataError

abbrev pub Checked : Type 0
Checked = Result MetadataError (Unit {0})

abbrev pub is_digit : ℕ → Bool
is_digit c = leb 48 c && leb c 57

-- `is_ascii_hexdigit() && !is_ascii_uppercase()`
abbrev pub is_lower_hex : ℕ → Bool
is_lower_hex c = is_digit c || (leb 97 c && leb c 102)

abbrev pub is_hex_of : ℕ → Text → Bool
is_hex_of hex_len hex = nat_beq (length hex) hex_len && all is_lower_hex hex

abbrev pub on_some {ℓ} : {A : Type ℓ} → (A → Bool) → Option A → Bool
on_some p none = false
on_some p (some a) = p a

unfoldable pub validate_schema : ℕ → Checked
validate_schema schema_version =
    guard (schema_version == current_schema) (malformed_record "schema_version")

unfoldable pub validate_id_field : String → Text → Text → ℕ → Checked
validate_id_field field value prefix hex_len =
    guard (on_some (is_hex_of hex_len) (strip_prefix value prefix)) (malformed_record field)

unfoldable pub validate_agent_id : Text → Checked
validate_agent_id agent_id =
    guard (on_some (is_hex_of 32) (strip_prefix agent_id (codes "agt_")))
      (malformed_record "agent_id")

abbrev pub event_id_parts : Option (Text × Text) → Bool
event_id_parts none = false
event_id_parts (some (millis, random)) =
    nat_beq (length millis) 13 && (all is_digit millis && is_hex_of 16 random)

unfoldable pub validate_event_id : Text → Checked
validate_event_id event_id =
    guard
      (on_some (λ rest. event_id_parts (split_once 95 rest)) (strip_prefix event_id (codes "evt_")))
      (malformed_record "event_id")

unfoldable pub validate_non_empty : String → Text → Checked
validate_non_empty field value = guard (not (is_empty (trim value))) (malformed_record field)

unfoldable pub validate_timestamp : String → ℕ → Checked
validate_timestamp field value = guard (ltb 0 value) (malformed_record field)

-- `if let Some(value) = .. { .. }`
abbrev pub optional {ℓ} : {A : Type ℓ} → (A → Checked) → Option A → Checked
optional check none = ok tt
optional check (some a) = check a

abbrev pub each {ℓ} : {A : Type ℓ} → (A → Checked) → List A → Checked
each check [] = ok tt
each check (a ∷ rest) = check a >> each check rest

unfoldable pub validate_agentfs_path_field : String → Text → Checked
validate_agentfs_path_field field value =
    guard (is_ok (validate_source_relative_path value)) (malformed_record field)

unfoldable pub validate_authorization : AgentFsAuthorization → Checked
unfolding validate_id_field
validate_authorization (by_owner agent_id) =
    validate_id_field "authorized_by.agent_id" agent_id (codes "agt_") 32
validate_authorization (by_grant grant_id role granted scopes matched) = do
  validate_id_field "authorized_by.grant_id" grant_id (codes "grt_") 32
  guard (contains granted commit) (malformed_record "authorized_by.capabilities")
  guard (role_has_capability role commit) (malformed_record "authorized_by.role")
