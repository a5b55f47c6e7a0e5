-- ===== src/AgentFs/Access/Agreement.antt =====
-- The two ways of the program to decide a capability agree.
use section.AgentFs.Access.{
  AgentFsAuthorization, AccessError, grant_denied, use_grant, use_scopes, first_covering,
  matched_path_scopes, authorize_paths_for_fs, AgentFsCapability, owner, AgentFsRecord,
  AgentFsGrantRecord, has_capability, list_grants, applies, first_applying,
  authorize_capability_for_fs, role_has_capability, read, commit, manage, propose,
}
use section.Base.{
  Option-cases, Bool-cases, inl, inr, not, Bool, true, false, err, Option, none, some, refl, Result,
  ◌&&◌, List, [], ◌∷◌, any, ◌==◌, ◌≡◌, arith, nat_eq, list_eq, is_ok, ==_refl,
}
use section.Base.Text.{Text}

first_applying-any :
    (fs_id agent_id : Text) (capability : AgentFsCapability) (grants : List AgentFsGrantRecord)
    → is_ok (first_applying agent_id capability (list_grants grants fs_id))
      ≡ any (λ grant. grant.fs_id == fs_id && applies agent_id capability grant) grants
unfolding first_applying list_grants
first_applying-any fs_id agent_id capability [] = refl
first_applying-any fs_id agent_id capability (g ∷ grants) =
    ground (arith, first_applying-any fs_id agent_id capability grants)

-- The control service authorizes an agent for a capability exactly if `has_capability` of the
-- records holds of it.
pub authorize_capability_for_fs-has_capability :
    (fs : AgentFsRecord) (grants : List AgentFsGrantRecord) (agent_id : Text)
    (capability : AgentFsCapability)
    → is_ok (authorize_capability_for_fs fs grants agent_id capability)
      ≡ has_capability fs grants agent_id capability
unfolding authorize_capability_for_fs has_capability
authorize_capability_for_fs-has_capability fs grants agent_id capability =
    ground (arith, first_applying-any fs.fs_id agent_id capability grants)

owner_has_all : (capability : AgentFsCapability) → role_has_capability owner capability ≡ true
unfolding role_has_capability
owner_has_all read = refl
owner_has_all commit = refl
owner_has_all manage = refl
owner_has_all propose = refl

-- The owner of a filesystem has every capability, whatever the grants are. Where there are no
-- grants, an agent has a capability exactly if it is the owner.
pub has_capability-no_grants :
    (fs : AgentFsRecord) (grants : List AgentFsGrantRecord) (agent_id : Text)
    (capability : AgentFsCapability)
    → (has_capability fs grants fs.owner_agent_id capability ≡ true)
      × (has_capability fs [] agent_id capability ≡ (fs.owner_agent_id == agent_id))
unfolding has_capability
has_capability-no_grants fs grants agent_id capability =
    ground (arith, owner_has_all capability, ==_refl fs.owner_agent_id)

abbrev pub is_grant_denied : Result AccessError AgentFsAuthorization → Bool
is_grant_denied (err grant_denied) = true
is_grant_denied _ = false

use_grant-denied :
    (g : AgentFsGrantRecord) (paths : List Text)
    (next : Option (List Text) → Result AccessError AgentFsAuthorization)
    → ((scopes : List Text) → is_grant_denied (next (some scopes)) ≡ false)
    → (scopes : Option (List Text)) → is_grant_denied (use_grant g paths next scopes) ≡ false
unfolding use_grant use_scopes
use_grant-denied g paths next h none = refl
use_grant-denied g paths next h (some scopes) =
    elim (Option-cases (matched_path_scopes paths scopes)) [
      | inl o ↦ rw o (h scopes)
      | inr (found, o) ↦ rw o refl
    ]

-- A scope that denied the paths is remembered to the end of the loop.
covering_scoped :
    (agent_id : Text) (capability : AgentFsCapability) (paths scopes : List Text)
    (grants : List AgentFsGrantRecord)
    → is_grant_denied (first_covering agent_id capability paths (some scopes) grants) ≡ false
unfolding first_covering
covering_scoped agent_id capability paths scopes [] = refl
covering_scoped agent_id capability paths scopes (g ∷ grants) =
    elim (Bool-cases (applies agent_id capability g)) [
      | inl e ↦ rw e (
          use_grant-denied g paths (λ d. first_covering agent_id capability paths d grants)
            (λ d. covering_scoped agent_id capability paths d grants) g.path_scopes)
      | inr e ↦ rw e (covering_scoped agent_id capability paths scopes grants)
    ]

covering_denied :
    (agent_id : Text) (capability : AgentFsCapability) (paths : List Text)
    (grants : List AgentFsGrantRecord)
    → is_grant_denied (first_covering agent_id capability paths none grants)
      ≡ not (is_ok (first_applying agent_id capability grants))
unfolding first_covering first_applying
covering_denied agent_id capability paths [] = refl
covering_denied agent_id capability paths (g ∷ grants) =
    elim (Bool-cases (applies agent_id capability g)) [
      | inl e ↦ rw e (
          use_grant-denied g paths (λ d. first_covering agent_id capability paths d grants)
            (λ d. covering_scoped agent_id capability paths d grants) g.path_scopes)
      | inr e ↦ rw e (covering_denied agent_id capability paths grants)
    ]

-- Authorizing paths fails for want of a grant exactly if the agent has not the capability at all.
pub authorize_paths_for_fs-grant_denied :
    (fs : AgentFsRecord) (grants : List AgentFsGrantRecord) (agent_id : Text)
    (capability : AgentFsCapability) (paths : List Text)
    → is_grant_denied (authorize_paths_for_fs fs grants agent_id capability paths)
      ≡ not (has_capability fs grants agent_id capability)
unfolding authorize_paths_for_fs authorize_capability_for_fs
authorize_paths_for_fs-grant_denied fs grants agent_id capability paths = ground (
  arith,
  authorize_capability_for_fs-has_capability fs grants agent_id capability,
  covering_denied agent_id capability paths (list_grants grants fs.fs_id),
)
