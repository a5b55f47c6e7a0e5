-- ===== src/Service/Filesystems.antt =====
-- Filesystems of the control service, crates/sectiond/src/control_service.rs: creation and its
-- rollback, the list that an agent sees, and `resolve_filesystem`. The parameters of a creation say
-- what the backing source answers: that it is empty, and that the metadata was mirrored to it.
use section.Base.{
  Bool, false, not, ◌||◌, Option, none, some, List, [], ◌∷◌, ◌++◌, any, filter, find, is_empty,
  ◌==◌, nat_eq, list_eq, Result, ok, ◌>>=◌, ◌>>◌, guard, is_ok,
}
use section.Base.HashMap
use section.Base.Text.{Text, codes, trim, split, star}
use section.AgentFs.HeadLock.{text_leb}
use section.AgentFs.Access.{
  read, owner, AgentFsRecord, AgentFsGrantRecord, list_grants, authorize_capability_for_fs,
}
use section.AgentFs.Records.{current_schema, AgentFsSourceProfileRecord, AgentFsEventRecord}
use section.AgentFs.NewRecords.{grant_record, event_record}
use section.Service.Grants.{with_error}
use section.Service.{
  SourceConfig, Tables, ServiceError, grant_denied, unknown_profile, empty_name, already_exists,
  backing_not_empty, mirror_failed, sql_error, invalid_path_scope, Body, Stamp, finish_transaction,
  order_by, insert_grant, insert_event, known_filesystem, found,
}

unfoldable pub source_profile_by_name :
    Text → Tables → Result ServiceError (AgentFsSourceProfileRecord × SourceConfig)
source_profile_by_name name t =
    found unknown_profile (find (λ (p, s). p.name == name) t.source_profiles)

unfoldable pub source_profile_by_id :
    Text → Tables → Result ServiceError (AgentFsSourceProfileRecord × SourceConfig)
source_profile_by_id id t =
    found unknown_profile (find (λ (p, s). p.source_profile_id == id) t.source_profiles)

-- The agents that the option of a source profile names, if it is set.
unfoldable pub named_by : Option Text → Text → Text → Bool
named_by none agent_id name = false
named_by (some raw) agent_id name =
    any (λ v. let value = trim v in value == star ∷ [] || (value == agent_id || value == name))
      (split 44 raw)

unfoldable pub ensure_source_profile_create_allowed :
    Bool → SourceConfig → Text → Text → Result ServiceError (Unit {0})
unfolding named_by HashMap.get
ensure_source_profile_create_allowed enforce source agent_id name =
    guard
      (not enforce
        || named_by (HashMap.get source.options (codes "section.agentfs.create_agents")) agent_id
            name)
      grant_denied

pub record FilesystemCreateResult : Type 0 where
  pub fs : AgentFsRecord
  pub owner_grant : AgentFsGrantRecord
  pub event : AgentFsEventRecord
  pub source_profile : AgentFsSourceProfileRecord

unfoldable pub new_filesystem : Text → Text → AgentFsSourceProfileRecord → Stamp → AgentFsRecord
new_filesystem name owner_id profile stamp =
    let fs_id = codes "fs_" ++ stamp.random in
    record {
      schema_version = current_schema;
      fs_id = fs_id;
      name = name;
      owner_agent_id = owner_id;
      source_profile_id = profile.source_profile_id;
      source_name = fs_id;
      created_at_ms = stamp.at;
    }

unfoldable pub insert_filesystem : AgentFsRecord → Tables → Result ServiceError Tables
insert_filesystem fs t = do
  guard (not (any (λ f. f.fs_id == fs.fs_id || f.name == fs.name) t.filesystems)) sql_error
  ok (record t { filesystems = t.filesystems ++ fs ∷ [] })

-- The rows of a new filesystem.
unfoldable pub create_rows :
    AgentFsRecord
    → Text
    → AgentFsSourceProfileRecord
    → Bool
    → Stamp
    → Stamp
    → Tables
    → Body FilesystemCreateResult
unfolding insert_filesystem insert_grant event_record insert_event
create_rows fs owner_id profile mirrored granted created t = do
  t' ← insert_filesystem fs t
  owner_grant ←
      with_error invalid_path_scope
        (grant_record fs owner_id owner owner_id none granted.random granted.at)
  t'' ← insert_grant owner_grant t'
  (t''', event) ←
      insert_event
        (event_record fs.fs_id (codes "fs.created") owner_id fs.fs_id none created.random
          created.at)
        t''
  guard mirrored mirror_failed
  ok (t''', record { fs = fs; owner_grant = owner_grant; event = event; source_profile = profile })

unfoldable pub create_body :
    Text
    → Text
    → AgentFsSourceProfileRecord
    → Bool
    → Stamp
    → Stamp
    → Stamp
    → Tables
    → Body FilesystemCreateResult
unfolding new_filesystem create_rows
create_body name owner_id profile mirrored stamp granted created t = do
  guard (not (any (λ f. f.name == name) t.filesystems)) already_exists
  create_rows (new_filesystem name owner_id profile stamp) owner_id profile mirrored granted created
      t

-- What stands before the transaction, with the transaction's body.
unfoldable pub create_checked :
    Bool
    → Text
    → Text
    → Text
    → Text
    → Bool
    → Bool
    → Stamp
    → Stamp
    → Stamp
    → Tables
    → Body FilesystemCreateResult
unfolding source_profile_by_name ensure_source_profile_create_allowed create_body
create_checked enforce name profile_name owner_id owner_name empty mirrored stamp granted created
      t =
    do
      guard (not (is_empty name)) empty_name
      (profile, source) ← source_profile_by_name profile_name t
      ensure_source_profile_create_allowed enforce source owner_id owner_name
      guard empty backing_not_empty
      create_body name owner_id profile mirrored stamp granted created t

unfoldable pub create_filesystem :
    Bool
    → Text
    → Text
    → Text
    → Text
    → Bool
    → Bool
    → Stamp
    → Stamp
    → Stamp
    → Tables
    → Tables × Result ServiceError FilesystemCreateResult
unfolding create_checked finish_transaction
create_filesystem enforce raw_name profile_name owner_id owner_name empty mirrored stamp granted
      created t =
    finish_transaction t (
      create_checked enforce (trim raw_name) profile_name owner_id owner_name empty mirrored stamp
        granted created t)

-- The statements of `rollback_created_filesystem`.
unfoldable pub rollback_created_filesystem : Text → Tables → Tables
rollback_created_filesystem fs_id t = record t {
  credential_bindings = filter (λ r. not (r.fs_id == fs_id)) t.credential_bindings;
  hooks = filter (λ r. not (r.fs_id == fs_id)) t.hooks;
  shares = filter (λ r. not (r.fs_id == fs_id)) t.shares;
  grants = filter (λ r. not (r.fs_id == fs_id)) t.grants;
  events = filter (λ r. not (r.fs_id == fs_id)) t.events;
  filesystems = filter (λ r. not (r.fs_id == fs_id)) t.filesystems;
}

abbrev pub name_no_later : AgentFsRecord → AgentFsRecord → Bool
name_no_later f g = text_leb f.name g.name

unfoldable pub list_filesystems_for_agent : Text → Tables → List AgentFsRecord
unfolding order_by authorize_capability_for_fs
list_filesystems_for_agent agent_id t =
    filter (λ fs. is_ok (authorize_capability_for_fs fs t.grants agent_id read))
      (order_by name_no_later t.filesystems)

pub record ResolvedServiceFilesystem : Type 0 where
  pub fs : AgentFsRecord
  pub source_profile : AgentFsSourceProfileRecord
  pub source : SourceConfig
  pub grants : List AgentFsGrantRecord

-- `resolve_filesystem` is this one without the `source`.
unfoldable pub resolve_filesystem_with_source :
    Text → Tables → Result ServiceError ResolvedServiceFilesystem
unfolding known_filesystem source_profile_by_id list_grants
resolve_filesystem_with_source fs_ref t = do
  fs ← known_filesystem fs_ref t
  (profile, source) ← source_profile_by_id fs.source_profile_id t
  ok record {
    fs = fs;
    source_profile = profile;
    source = source;
    grants = list_grants t.grants fs.fs_id;
  }
