-- ===== src/Service/Grants.antt =====
-- Grants of the control service, crates/sectiond/src/control_service.rs: `fs_grant`, `fs_revoke` and
-- `active_role`. `now` is the one reading that both loops share, and each record that is made has a
-- stamp of its own: the k-th revocation's event has `stamps k`.
pub mod Revocation
pub mod Rights
pub mod Replacement
pub mod View
pub mod Invariant
use section.Base.{
  ℕ, ◌+◌, zero, suc, Bool, true, false, not, ◌&&◌, ◌||◌, Option, none, some, List, [], ◌∷◌, ◌++◌,
  filter, find, map, is_empty, if◌then◌else◌, ◌==◌, nat_eq, list_eq, Result, ok, err, ◌>>=◌, ◌>>◌,
  guard, is_ok,
}
use section.Base.Text.{Text, codes}
use section.AgentFs.Access.{
  AgentFsCapability, read, commit, manage, propose, AgentFsRole, owner, reader, writer, manager,
  contributor, role_has_capability, AgentFsRecord, AgentFsGrantRecord, is_active, list_grants,
}
use section.AgentFs.Records.{AgentFsEventRecord}
use section.AgentFs.Metadata.{validate_agent_id}
use section.AgentFs.NewRecords.{validate_scopes, grant_record, event_record}
use section.Service.{
  Tables, ServiceError, grant_denied, invalid_agent_id, invalid_path_scope, unknown_agent, Body,
  Stamp, finish_transaction, insert_grant, update_grant, insert_event, known_filesystem,
  require_capability, agent_exists,
}

pub record GrantMutationResult : Type 0 where
  pub grant : AgentFsGrantRecord
  pub revoked : List AgentFsGrantRecord
  pub events : List AgentFsEventRecord

pub record RevokeMutationResult : Type 0 where
  pub revoked : List AgentFsGrantRecord
  pub events : List AgentFsEventRecord

abbrev pub is_owner_role : AgentFsRole → Bool
is_owner_role owner = true
is_owner_role reader = false
is_owner_role writer = false
is_owner_role manager = false
is_owner_role contributor = false

-- `active_role`
unfoldable pub first_role : Option AgentFsGrantRecord → Option AgentFsRole
first_role none = none
first_role (some grant) = some grant.role

unfoldable pub active_role : AgentFsRecord → Text → Tables → Option AgentFsRole
unfolding first_role list_grants
active_role fs agent_id t =
    if fs.owner_agent_id == agent_id
    then some owner
    else first_role (
        find (λ grant. grant.agent_id == agent_id && is_active grant)
          (list_grants t.grants fs.fs_id))

-- The rows that both loops go over.
abbrev pub is_target : Text → Text → AgentFsGrantRecord → Bool
is_target fs_id target grant = grant.fs_id == fs_id && (grant.agent_id == target && is_active grant)

unfoldable pub active_grants : Text → Text → Tables → List AgentFsGrantRecord
unfolding list_grants
active_grants fs_id target t =
    filter (λ grant. grant.agent_id == target && is_active grant) (list_grants t.grants fs_id)

unfoldable pub as_revoked : ℕ → Text → AgentFsGrantRecord → AgentFsGrantRecord
as_revoked now by grant = record grant { revoked_at_ms = some now; revoked_by = some by }

-- The loop over the active grants of the target: it returns the `revoked` rows and the `events`.
unfoldable pub revoke_loop :
    Text
    → Text
    → ℕ
    → (ℕ → Stamp)
    → List AgentFsGrantRecord
    → Tables
    → Body (List AgentFsGrantRecord × List AgentFsEventRecord)
unfolding as_revoked update_grant insert_event event_record
revoke_loop fs_id actor now stamps [] t = ok (t, ([], []))
revoke_loop fs_id actor now stamps (grant ∷ grants) t = do
  guard (not (is_owner_role grant.role)) grant_denied
  let existing = as_revoked now actor grant
  (t', event) ←
      insert_event
        (event_record fs_id (codes "grant.revoked") actor existing.grant_id none (stamps 0).random
          (stamps 0).at)
        (update_grant existing t)
  (t'', (revoked, events)) ← revoke_loop fs_id actor now (λ k. stamps (k + 1)) grants t'
  ok (t'', (existing ∷ revoked, event ∷ events))

-- The two guards of `fs_grant` between the authorization and the loop.
unfoldable pub check_replacement :
    AgentFsRecord → Text → Text → AgentFsRole → Tables → Result ServiceError (Unit {0})
unfolding role_has_capability require_capability
check_replacement fs actor target role t = do
  guard
      (not (
        actor == target
        && (role_has_capability role commit && not (is_ok (require_capability fs actor commit t)))))
      grant_denied
  guard (not (target == fs.owner_agent_id)) grant_denied

-- `?` on an error of agentfs.rs.
abbrev pub with_error {ℓ} :
    {E : Type 0} {A : Type ℓ} → ServiceError → Result E A → Result ServiceError A
with_error failure (ok a) = ok a
with_error failure (err e) = err failure

-- The loop and what stands behind it in `fs_grant`.
unfoldable pub replace_grant :
    AgentFsRecord
    → Text
    → Text
    → AgentFsRole
    → Option (List Text)
    → ℕ
    → (ℕ → Stamp)
    → Stamp
    → Stamp
    → Tables
    → Body GrantMutationResult
unfolding revoke_loop active_grants grant_record insert_grant insert_event event_record
replace_grant fs actor target role path_scopes now stamps made created t = do
  (t', (revoked, events)) ←
      revoke_loop fs.fs_id actor now stamps (active_grants fs.fs_id target t) t
  grant ←
      with_error invalid_path_scope
        (grant_record fs target role actor path_scopes made.random made.at)
  t'' ← insert_grant grant t'
  (t''', event) ←
      insert_event
        (event_record fs.fs_id (codes "grant.created") actor grant.grant_id none created.random
          created.at)
        t''
  ok (t''', record { grant = grant; revoked = revoked; events = events ++ event ∷ [] })

unfoldable pub grant_body :
    Text
    → Text
    → Text
    → AgentFsRole
    → Option (List Text)
    → ℕ
    → (ℕ → Stamp)
    → Stamp
    → Stamp
    → Tables
    → Body GrantMutationResult
unfolding known_filesystem require_capability check_replacement replace_grant
grant_body fs_id actor target role path_scopes now stamps made created t = do
  fs ← known_filesystem fs_id t
  require_capability fs actor manage t
  check_replacement fs actor target role t
  replace_grant fs actor target role path_scopes now stamps made created t

-- What `fs_grant` checks before the transaction.
unfoldable pub check_grant :
    Text → AgentFsRole → Option (List Text) → Tables → Result ServiceError (Unit {0})
unfolding validate_agent_id validate_scopes agent_exists
check_grant target role path_scopes t = do
  with_error invalid_agent_id (validate_agent_id target)
  with_error invalid_path_scope (validate_scopes path_scopes)
  guard (not (is_owner_role role)) grant_denied
  guard (agent_exists target t) unknown_agent

-- A check before the transaction, and its body.
abbrev pub checked : {A : Type 0} → Result ServiceError (Unit {0}) → Body A → Body A
checked check body = check >> body

unfoldable pub fs_grant :
    Text
    → Text
    → Text
    → AgentFsRole
    → Option (List Text)
    → ℕ
    → (ℕ → Stamp)
    → Stamp
    → Stamp
    → Tables
    → Tables × Result ServiceError GrantMutationResult
unfolding check_grant grant_body finish_transaction
fs_grant fs_id actor target role path_scopes now stamps made created t = finish_transaction t (
    checked (check_grant target role path_scopes t)
      (grant_body fs_id actor target role path_scopes now stamps made created t))

-- The loop and the test behind it in `fs_revoke`.
unfoldable pub revoke_all :
    AgentFsRecord → Text → Text → ℕ → (ℕ → Stamp) → Tables → Body RevokeMutationResult
unfolding revoke_loop active_grants
revoke_all fs actor target now stamps t = do
  (t', (revoked, events)) ←
      revoke_loop fs.fs_id actor now stamps (active_grants fs.fs_id target t) t
  guard (not (is_empty revoked)) grant_denied
  ok (t', record { revoked = revoked; events = events })

unfoldable pub revoke_body :
    Text → Text → Text → ℕ → (ℕ → Stamp) → Tables → Body RevokeMutationResult
unfolding known_filesystem require_capability revoke_all
revoke_body fs_id actor target now stamps t = do
  fs ← known_filesystem fs_id t
  require_capability fs actor manage t
  guard (not (target == fs.owner_agent_id)) grant_denied
  revoke_all fs actor target now stamps t

unfoldable pub fs_revoke :
    Text
    → Text
    → Text
    → ℕ
    → (ℕ → Stamp)
    → Tables
    → Tables × Result ServiceError RevokeMutationResult
unfolding validate_agent_id revoke_body finish_transaction
fs_revoke fs_id actor target now stamps t = finish_transaction t (
    checked (with_error invalid_agent_id (validate_agent_id target))
      (revoke_body fs_id actor target now stamps t))
