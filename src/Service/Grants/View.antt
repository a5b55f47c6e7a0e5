-- ===== src/Service/Grants/View.antt =====
-- What an agent holds on a filesystem, whatever the history of the grants and their order: the role and
-- the scopes of its active grant. `fs_grant` and `fs_revoke` assign to this view, and the
-- authorization reads it.
use section.Base.{
  Bool-cases, inl, inr, ℕ, ◌≤◌, ◌≡◌, refl, ap, ◌∙◌, Bool, true, false, ◌&&◌, ◌||◌, Option, none,
  some, List, [], ◌∷◌, any, all, map, if◌then◌else◌, ◌==◌, ==_iff, nat_eq, list_eq, arith, ok,
  is_ok, contains,
}
use mathlib.Core.Path.{fun_ext}
use section.Base.Text.{Text}
use section.AgentFs.Access.{
  AgentFsCapability, AgentFsRole, capability_eq, capabilities, AgentFsRecord, AgentFsGrantRecord,
  is_owner, applies, authorize_paths_for_fs,
}
use section.AgentFs.Access.Scopes.{covers, authorize_paths_for_fs-covers}
use section.Service.{Tables, Stamp, insert_by, grant_no_later, known_filesystem}
use section.Service.Grants.{
  GrantMutationResult, RevokeMutationResult, as_revoked, is_target, fs_grant, fs_revoke,
}
use section.Service.Grants.Revocation.{Distinct, revoke_if}
use section.Service.Grants.Rights.{fs_revoke-effect}
use section.Service.Grants.Replacement.{IsNewGrant, replaced, fs_grant-effect}
use section.Service.Grants.Invariant.{InOrder, by_role, active_count}

-- A role with the scopes it is limited to.
abbrev pub Held : Type 0
Held = Option (AgentFsRole × Option (List Text))

unfoldable pub holding : List AgentFsGrantRecord → Text → Text → Held
holding [] fs_id agent_id = none
holding (g ∷ grants) fs_id agent_id =
    let rest = holding grants fs_id agent_id in
    if is_target fs_id agent_id g then some (g.role, g.path_scopes) else rest

abbrev pub assign : Text → Text → Held → (Text → Text → Held) → Text → Text → Held
assign fs_id agent_id held view = λ f a. if f == fs_id && a == agent_id then held else view f a

holding-revoked :
    (fs_id target f a by : Text) (now : ℕ) (rows : List AgentFsGrantRecord)
    → holding (map (revoke_if (is_target fs_id target) now by) rows) f a
      ≡ assign fs_id target none (holding rows) f a
unfolding holding as_revoked
holding-revoked fs_id target f a by now [] = ground arith
holding-revoked fs_id target f a by now (x ∷ rows) = ground (
  arith,
  holding-revoked fs_id target f a by now rows,
  ==_iff x.fs_id fs_id,
  ==_iff x.fs_id f,
  ==_iff x.agent_id target,
  ==_iff x.agent_id a,
  ==_iff f fs_id,
  ==_iff a target,
)

-- Where the agent holds nothing yet, the inserted row is what it holds, wherever it is put.
holding-insert_by :
    (x : AgentFsGrantRecord) (f a : Text) (rows : List AgentFsGrantRecord)
    → (is_target f a x ≡ true → holding rows f a ≡ none)
    → holding (insert_by grant_no_later x rows) f a
      ≡ (if is_target f a x then some (x.role, x.path_scopes) else holding rows f a)
unfolding holding insert_by
holding-insert_by x f a [] h = refl
holding-insert_by x f a (y ∷ rows) h = ground (arith, h, holding-insert_by x f a rows)

-- A successful `fs_revoke` takes what the target holds on the filesystem out of the view. The rest of
-- the view does not change. No two rows of the table have the same `grant_id`.
pub fs_revoke-refines :
    (fs_id actor target : Text) (now : ℕ) (stamps : ℕ → Stamp) (t t' : Tables)
    (result : RevokeMutationResult) (fs : AgentFsRecord)
    → Distinct t.grants
    → known_filesystem fs_id t ≡ ok fs
    → fs_revoke fs_id actor target now stamps t ≡ (t', ok result)
    → holding t'.grants ≡ assign fs.fs_id target none (holding t.grants)
fs_revoke-refines fs_id actor target now stamps t t' result fs distinct known h =
    let (effect, _, _) =
      fs_revoke-effect fs_id actor target now stamps t t' result fs distinct known h in
    ap (λ (s : Tables). holding s.grants) effect
    ∙ fun_ext (λ f. fun_ext (λ a. holding-revoked fs.fs_id target f a actor now t.grants))

holding-replaced :
    (fs : AgentFsRecord) (actor target : Text) (role : AgentFsRole)
    (path_scopes : Option (List Text)) (now : ℕ) (grant : AgentFsGrantRecord)
    (rows : List AgentFsGrantRecord) (f a : Text)
    → IsNewGrant fs target role path_scopes grant
    → holding (replaced fs actor target now grant rows) f a
      ≡ assign fs.fs_id target (some (role, path_scopes)) (holding rows) f a
holding-replaced fs actor target role path_scopes now grant rows f a new =
    let without = map (revoke_if (is_target fs.fs_id target) now actor) rows in
    let gone = holding-revoked fs.fs_id target f a actor now rows in
    let mine : is_target f a grant ≡ (f == fs.fs_id && a == target) = ground (
      arith,
      new.of_filesystem,
      new.of_agent,
      new.not_revoked,
      ==_iff grant.fs_id f,
      ==_iff grant.agent_id a,
      ==_iff f fs.fs_id,
      ==_iff a target,
    ) in
    holding-insert_by grant f a without (λ m. ground (arith, m, mine, gone))
    ∙ ground (arith, mine, gone, new.of_role, new.of_scopes)

-- A successful `fs_grant` puts the role and the scopes into the view of what the target holds on the
-- filesystem. The rest of the view does not change. No two rows of the table have the same `grant_id`.
pub fs_grant-refines :
    (fs_id actor target : Text) (role : AgentFsRole) (path_scopes : Option (List Text)) (now : ℕ)
    (stamps : ℕ → Stamp) (made created : Stamp) (t t' : Tables) (result : GrantMutationResult)
    (fs : AgentFsRecord)
    → Distinct t.grants
    → known_filesystem fs_id t ≡ ok fs
    → fs_grant fs_id actor target role path_scopes now stamps made created t ≡ (t', ok result)
    → holding t'.grants ≡ assign fs.fs_id target (some (role, path_scopes)) (holding t.grants)
fs_grant-refines fs_id actor target role path_scopes now stamps made created t t' result fs distinct
      known h =
    let (_, _, effect, fields, _) =
      fs_grant-effect fs_id actor target role path_scopes now stamps made created t t' result fs
        distinct known h in
    ap (λ (s : Tables). holding s.grants) effect
    ∙ fun_ext (λ f.
      fun_ext (λ a.
        holding-replaced fs actor target role path_scopes now result.grant t.grants f a fields))

-- What an agent may do by what it holds.
abbrev pub allows : Held → AgentFsCapability → List Text → Bool
allows none capability paths = false
allows (some (role, scopes)) capability paths =
    contains (capabilities role) capability && covers paths scopes

-- The grants that the authorization looks for.
abbrev pub suits : Text → Text → AgentFsCapability → List Text → AgentFsGrantRecord → Bool
suits fs_id agent_id capability paths g =
    g.fs_id == fs_id && (applies agent_id capability g && covers paths g.path_scopes)

no_active :
    (fs_id agent_id : Text) (capability : AgentFsCapability) (paths : List Text)
    (rows : List AgentFsGrantRecord)
    → active_count fs_id agent_id rows ≡ 0
    → any (suits fs_id agent_id capability paths) rows ≡ false
no_active fs_id agent_id capability paths [] h = refl
no_active fs_id agent_id capability paths (x ∷ rows) h =
    ground (arith, no_active fs_id agent_id capability paths rows)

any-holding :
    (fs_id agent_id : Text) (capability : AgentFsCapability) (paths : List Text)
    (rows : List AgentFsGrantRecord)
    → active_count fs_id agent_id rows ≤ 1
    → all by_role rows ≡ true
    → any (suits fs_id agent_id capability paths) rows
      ≡ allows (holding rows fs_id agent_id) capability paths
unfolding holding
any-holding fs_id agent_id capability paths [] h r = refl
any-holding fs_id agent_id capability paths (x ∷ rows) h r =
    let role_row : by_role x ≡ true = ground (arith, r) in
    let same : x.capabilities ≡ capabilities x.role =
      (==_iff x.capabilities (capabilities x.role)).0 role_row in
    elim (Bool-cases (is_target fs_id agent_id x)) [
      | inl e ↦ rw e (ground (arith, no_active fs_id agent_id capability paths rows, same, h, e))
      | inr e ↦ rw e (ground (arith, any-holding fs_id agent_id capability paths rows, h, e, r))
    ]

-- In a table that is in order, whether an agent may use paths depends only on who owns the filesystem
-- and on what the agent holds: the role has the capability, and its scopes, if any, cover each path.
pub authorize_paths_for_fs-holding :
    (fs : AgentFsRecord) (grants : List AgentFsGrantRecord) (agent_id : Text)
    (capability : AgentFsCapability) (paths : List Text)
    → InOrder grants
    → is_ok (authorize_paths_for_fs fs grants agent_id capability paths) ≡ (
        is_owner fs grants agent_id capability
        || allows (holding grants fs.fs_id agent_id) capability paths)
authorize_paths_for_fs-holding fs grants agent_id capability paths v =
    authorize_paths_for_fs-covers fs grants agent_id capability paths
    ∙ ap (λ b. is_owner fs grants agent_id capability || b)
        (any-holding fs.fs_id agent_id capability paths grants (v.single fs.fs_id agent_id) v.roles)
