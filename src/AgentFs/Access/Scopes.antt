-- ===== src/AgentFs/Access/Scopes.antt =====
-- What the authorization of paths lets through: paths that a scope of one grant covers, each.
use section.Base.{
  Bool, true, false, ◌&&◌, ◌||◌, Option, none, some, List, [], ◌∷◌, ◌++◌, any, all, contains,
  if◌then◌else◌, ◌==◌, ◌≡◌, refl, ◌∙◌, arith, nat_eq, list_eq, Result, is_ok, is_some, Bool-cases,
  inl, inr, Option-cases,
}
use section.Base.Text.{Text}
use section.AgentFs.Scope.{path_matches_scope, path_matches_any_scope}
use section.AgentFs.Access.{
  AgentFsCapability, AgentFsRecord, AgentFsGrantRecord, is_owner, list_grants, applies,
  match_scopes, match_paths, matched_path_scopes, first_covering, use_grant, use_scopes,
  authorize_paths_for_fs, AccessError, AgentFsAuthorization,
}

match_scopes-allowed :
    (path : Text) (allowed : Bool) (matched scopes : List Text)
    → (match_scopes path (allowed, matched) scopes).0
      ≡ (allowed || path_matches_any_scope path scopes)
unfolding match_scopes path_matches_any_scope
match_scopes-allowed path allowed matched [] = ground arith
match_scopes-allowed path allowed matched (scope ∷ scopes) =
    elim (Bool-cases (path_matches_scope path scope)) [
      | inr e ↦ ground (arith, e, match_scopes-allowed path allowed matched scopes)
      | inl e ↦
          let hit = if contains matched scope then matched else matched ++ scope ∷ [] in
          rw e (match_scopes-allowed path true hit scopes ∙ ground (arith, e))
    ]

match_paths-some :
    (scopes matched paths : List Text)
    → is_some (match_paths scopes matched paths)
      ≡ all (λ path. path_matches_any_scope path scopes) paths
unfolding match_paths
match_paths-some scopes matched [] = refl
match_paths-some scopes matched (path ∷ paths) = ground (
  arith,
  match_scopes-allowed path false matched scopes,
  match_paths-some scopes (match_scopes path (false, matched) scopes).1 paths,
)

-- The paths match the scopes of a grant exactly if each of them matches one of the scopes.
pub matched_path_scopes-all :
    (paths scopes : List Text)
    → is_some (matched_path_scopes paths scopes)
      ≡ all (λ path. path_matches_any_scope path scopes) paths
unfolding matched_path_scopes
matched_path_scopes-all paths scopes = match_paths-some scopes [] paths

-- The scopes of a grant cover the paths; a grant without scopes covers all.
abbrev pub covers : List Text → Option (List Text) → Bool
covers paths none = true
covers paths (some scopes) = all (λ path. path_matches_any_scope path scopes) paths

use_grant-covers :
    (g : AgentFsGrantRecord) (paths : List Text)
    (next : Option (List Text) → Result AccessError AgentFsAuthorization) (rest : Bool)
    → ((d : Option (List Text)) → is_ok (next d) ≡ rest)
    → (scopes : Option (List Text))
    → is_ok (use_grant g paths next scopes) ≡ (covers paths scopes || rest)
unfolding use_grant use_scopes
use_grant-covers g paths next rest h none = refl
use_grant-covers g paths next rest h (some scopes) =
    let m = matched_path_scopes-all paths scopes in
    elim (Option-cases (matched_path_scopes paths scopes)) [
      | inl o ↦ rw o (ground (arith, h (some scopes), m, o))
      | inr (found, o) ↦ rw o (ground (arith, m, o))
    ]

first_covering-any :
    (agent_id : Text) (capability : AgentFsCapability) (paths : List Text)
    (denied : Option (List Text)) (grants : List AgentFsGrantRecord)
    → is_ok (first_covering agent_id capability paths denied grants)
      ≡ any (λ g. applies agent_id capability g && covers paths g.path_scopes) grants
unfolding first_covering
first_covering-any agent_id capability paths none [] = refl
first_covering-any agent_id capability paths (some d) [] = refl
first_covering-any agent_id capability paths denied (g ∷ grants) =
    let used =
      use_grant-covers g paths (λ d. first_covering agent_id capability paths d grants)
        (any (λ g. applies agent_id capability g && covers paths g.path_scopes) grants)
        (λ d. first_covering-any agent_id capability paths d grants) g.path_scopes in
    elim (Bool-cases (applies agent_id capability g)) [
      | inl e ↦ rw e used
      | inr e ↦ rw e (first_covering-any agent_id capability paths denied grants)
    ]

any-list_grants :
    (p : AgentFsGrantRecord → Bool) (fs_id : Text) (grants : List AgentFsGrantRecord)
    → any p (list_grants grants fs_id) ≡ any (λ g. g.fs_id == fs_id && p g) grants
unfolding list_grants
any-list_grants p fs_id [] = refl
any-list_grants p fs_id (g ∷ grants) = ground (arith, any-list_grants p fs_id grants)

-- An agent may use the paths exactly if it owns the filesystem, or one active grant of the
-- filesystem for the agent has the capability and either has no scopes or has, for each of the
-- paths, a scope that it matches.
pub authorize_paths_for_fs-covers :
    (fs : AgentFsRecord) (grants : List AgentFsGrantRecord) (agent_id : Text)
    (capability : AgentFsCapability) (paths : List Text)
    → is_ok (authorize_paths_for_fs fs grants agent_id capability paths) ≡ (
        is_owner fs grants agent_id capability
        || any
            (λ g.
              g.fs_id == fs.fs_id && (applies agent_id capability g && covers paths g.path_scopes))
            grants)
unfolding authorize_paths_for_fs
authorize_paths_for_fs-covers fs grants agent_id capability paths = ground (
  arith,
  first_covering-any agent_id capability paths none (list_grants grants fs.fs_id),
  any-list_grants (λ g. applies agent_id capability g && covers paths g.path_scopes) fs.fs_id
      grants,
)
