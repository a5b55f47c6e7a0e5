-- ===== src/AgentFs/Access.antt =====
-- Who may do what in an AgentFS: the roles, grants and `has_capability` of
-- crates/sectiond/src/agentfs.rs, and `authorize_capability_for_fs`, `authorize_paths_for_fs` and
-- `matched_path_scopes` of crates/sectiond/src/control_service.rs. The grants table is the list of
-- its rows in the order of the query.
pub mod Scopes
pub mod Agreement
use section.Base.{
  ℕ, Bool, true, false, not, ◌&&◌, ◌||◌, Option, none, some, List, [], ◌∷◌, ◌++◌, ℤ, any, is_none,
  filter, contains, if◌then◌else◌, ◌==◌, ◌≡◌, ◌↔◌, refl, arith, nat_eq, list_eq, Result, ok, err,
}
use section.Base.Eq.{Eq}
use section.Base.Text.{Text}
use section.AgentFs.Scope.{path_matches_scope}

pub data AgentFsCapability : Type 0 where
  read commit manage propose : AgentFsCapability

pub data AgentFsRole : Type 0 where
  owner reader writer manager contributor : AgentFsRole

-- `PartialEq` of `AgentFsCapability`
abbrev pub capability_beq : AgentFsCapability → AgentFsCapability → Bool
capability_beq read read = true
capability_beq commit commit = true
capability_beq manage manage = true
capability_beq propose propose = true
capability_beq _ _ = false

pub capability_beq_iff : (a b : AgentFsCapability) → (capability_beq a b ≡ true) ↔ (a ≡ b)
capability_beq_iff read b = ground arith
capability_beq_iff commit b = ground arith
capability_beq_iff manage b = ground arith
capability_beq_iff propose b = ground arith

instance abbrev pub capability_eq : Eq AgentFsCapability
capability_eq = record { beq = capability_beq; beq_iff = capability_beq_iff }

unfoldable pub capabilities : AgentFsRole → List AgentFsCapability
capabilities owner = read ∷ commit ∷ manage ∷ propose ∷ []
capabilities reader = read ∷ []
capabilities writer = read ∷ commit ∷ []
capabilities manager = read ∷ manage ∷ []
capabilities contributor = read ∷ propose ∷ []

-- `AgentFsRole::has_capability`
unfoldable pub role_has_capability : AgentFsRole → AgentFsCapability → Bool
unfolding capabilities
role_has_capability role capability = contains (capabilities role) capability

pub record AgentFsRecord : Type 0 where
  pub schema_version : ℕ
  pub fs_id : Text
  pub name : Text
  pub owner_agent_id : Text
  pub source_profile_id : Text
  pub source_name : Text
  pub created_at_ms : ℕ

pub record AgentFsGrantRecord : Type 0 where
  pub schema_version : ℕ
  pub grant_id : Text
  pub fs_id : Text
  pub agent_id : Text
  pub role : AgentFsRole
  pub capabilities : List AgentFsCapability
  pub path_scopes : Option (List Text)
  pub granted_by : Text
  pub created_at_ms : ℕ
  pub revoked_at_ms : Option ℕ
  pub revoked_by : Option Text

abbrev pub is_active : AgentFsGrantRecord → Bool
is_active grant = is_none grant.revoked_at_ms

pub data AgentFsAuthorization : Type 0 where
  by_owner : Text → AgentFsAuthorization
  by_grant :
      Text
      → AgentFsRole
      → List AgentFsCapability
      → Option (List Text)
      → Option (List Text)
      → AgentFsAuthorization

pub data AccessError : Type 0 where
  grant_denied : AccessError
  path_scope_denied : List Text → List Text → AccessError

module _ (fs : AgentFsRecord) (grants : List AgentFsGrantRecord) (agent_id : Text)
    (capability : AgentFsCapability) where
  abbrev pub is_owner : Bool
  is_owner = fs.owner_agent_id == agent_id && role_has_capability owner capability

  -- `has_capability` of agentfs.rs.
  unfoldable pub has_capability : Bool
  has_capability =
      if is_owner
      then true
      else any
          (λ grant.
            grant.fs_id == fs.fs_id
            && (grant.agent_id == agent_id
                && (is_active grant && contains grant.capabilities capability)))
          grants

-- `list_grants`
unfoldable pub list_grants : List AgentFsGrantRecord → Text → List AgentFsGrantRecord
list_grants grants fs_id = filter (λ grant. grant.fs_id == fs_id) grants

-- The test that both loops over the grants make.
abbrev pub applies : Text → AgentFsCapability → AgentFsGrantRecord → Bool
applies agent_id capability grant =
    grant.agent_id == agent_id && (is_active grant && contains grant.capabilities capability)

unfoldable pub first_applying :
    Text → AgentFsCapability → List AgentFsGrantRecord → Result AccessError AgentFsAuthorization
first_applying agent_id capability [] = err grant_denied
first_applying agent_id capability (grant ∷ grants) =
    let rest = first_applying agent_id capability grants in
    if applies agent_id capability grant
    then ok (by_grant grant.grant_id grant.role grant.capabilities grant.path_scopes none)
    else rest

unfoldable pub authorize_capability_for_fs :
    AgentFsRecord
    → List AgentFsGrantRecord
    → Text
    → AgentFsCapability
    → Result AccessError AgentFsAuthorization
unfolding list_grants first_applying role_has_capability
authorize_capability_for_fs fs grants agent_id capability =
    if is_owner fs grants agent_id capability
    then ok (by_owner agent_id)
    else first_applying agent_id capability (list_grants grants fs.fs_id)

-- The inner loop of `matched_path_scopes`, over the scopes: `path_allowed` and `matched`.
unfoldable pub match_scopes : Text → Bool × List Text → List Text → Bool × List Text
match_scopes path (path_allowed, matched) [] = (path_allowed, matched)
match_scopes path (path_allowed, matched) (scope ∷ scopes) =
    let hit = if contains matched scope then matched else matched ++ scope ∷ [] in
    if path_matches_scope path scope
    then match_scopes path (true, hit) scopes
    else match_scopes path (path_allowed, matched) scopes

-- The outer loop, over the paths.
unfoldable pub match_paths : List Text → List Text → List Text → Option (List Text)
unfolding match_scopes
match_paths scopes matched [] = some matched
match_paths scopes matched (path ∷ paths) =
    let (path_allowed, matched') = match_scopes path (false, matched) scopes in
    if path_allowed then match_paths scopes matched' paths else none

unfoldable pub matched_path_scopes : List Text → List Text → Option (List Text)
unfolding match_paths
matched_path_scopes paths scopes = match_paths scopes [] paths

-- What the end of `authorize_paths_for_fs` makes of `scoped_denial`.
abbrev pub denial : List Text → Option (List Text) → Result AccessError AgentFsAuthorization
denial paths none = err grant_denied
denial paths (some scopes) = err (path_scope_denied paths scopes)

-- The body of its loop, for a grant that applies: by the scopes of the grant and by what
-- `matched_path_scopes` returned. `next` is the rest of the loop, by the new `scoped_denial`.
unfoldable pub use_scopes :
    AgentFsGrantRecord
    → List Text
    → Result AccessError AgentFsAuthorization
    → Option (List Text)
    → Result AccessError AgentFsAuthorization
use_scopes grant scopes next none = next
use_scopes grant scopes next (some matched) =
    ok (by_grant grant.grant_id grant.role grant.capabilities (some scopes) (some matched))

unfoldable pub use_grant :
    AgentFsGrantRecord
    → List Text
    → (Option (List Text) → Result AccessError AgentFsAuthorization)
    → Option (List Text)
    → Result AccessError AgentFsAuthorization
unfolding use_scopes matched_path_scopes
use_grant grant paths next none =
    ok (by_grant grant.grant_id grant.role grant.capabilities none none)
use_grant grant paths next (some scopes) =
    use_scopes grant scopes (next (some scopes)) (matched_path_scopes paths scopes)

-- The loop of `authorize_paths_for_fs`, with `scoped_denial`.
unfoldable pub first_covering :
    Text
    → AgentFsCapability
    → List Text
    → Option (List Text)
    → List AgentFsGrantRecord
    → Result AccessError AgentFsAuthorization
unfolding use_grant
first_covering agent_id capability paths scoped_denial [] = denial paths scoped_denial
first_covering agent_id capability paths scoped_denial (grant ∷ grants) =
    let next : Option (List Text) → Result AccessError AgentFsAuthorization =
      λ denied. first_covering agent_id capability paths denied grants in
    if applies agent_id capability grant
    then use_grant grant paths next grant.path_scopes
    else next scoped_denial

unfoldable pub authorize_paths_for_fs :
    AgentFsRecord
    → List AgentFsGrantRecord
    → Text
    → AgentFsCapability
    → List Text
    → Result AccessError AgentFsAuthorization
unfolding list_grants first_covering matched_path_scopes role_has_capability
authorize_paths_for_fs fs grants agent_id capability paths =
    if is_owner fs grants agent_id capability
    then ok (by_owner agent_id)
    else first_covering agent_id capability paths none (list_grants grants fs.fs_id)
