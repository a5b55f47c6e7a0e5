-- ===== src/Service/Reached/Steps.antt =====
-- The relation of reachability over all operations of the control service that change the store. A
-- call that fails is a step too.
use section.Base.{arith, ℕ, refl, Bool, Option, List, [], >>=-eq-ok, guard, not, is_empty}
use section.Base.Text.{Text, trim}
use section.AgentFs.Access.{AgentFsRole}
use section.AgentFs.Records.{AgentFsSourceProfileRecord}
use section.Service.{SourceConfig, Tables, Stamp, unknown_agent, empty_name, agent_exists}
use section.Service.Grants.{fs_grant, fs_revoke, checked}
use section.Service.Filesystems.{create_filesystem, rollback_created_filesystem}
use section.Service.Hooks.{add_hook, add_body, remove_hook, remove_body}
use section.Service.Shares.{
  fs_share, share_body, issue_credential, issue_body, accept_share, accept_body,
}
use section.Service.Agents.{login_agent, login_body}
use section.Service.Unchanged.{
  Kept, finish_transaction-Kept, add_body-Kept, remove_body-Kept, share_body-Kept, issue_body-Kept,
  accept_body-Kept, login_body-Kept,
}
use section.Service.Reached.{IsSound, rollback-IsSound}
use section.Service.Reached.Operations.{Kept-IsSound, fs_grant-IsSound, fs_revoke-IsSound}
use section.Service.Reached.Creation.{create_filesystem-IsSound}

-- The store that `init` makes, with the source profiles of the configuration.
unfoldable pub new_store : List (AgentFsSourceProfileRecord × SourceConfig) → Tables
new_store profiles = record {
  agents = [];
  installations = [];
  source_profiles = profiles;
  filesystems = [];
  grants = [];
  shares = [];
  credential_bindings = [];
  events = [];
  hooks = [];
}

module _ (sha256_hex : Text → Text) where
  pub data Reached : Tables → Type 0 where
    start :
        (profiles : List (AgentFsSourceProfileRecord × SourceConfig)) → Reached (new_store profiles)
    login :
        {t : Tables} (name : Text) (installation given : Option Text) (now : ℕ)
        (random token installation_random : Text)
        → Reached t
        → Reached
            (login_agent sha256_hex name installation given now random token installation_random
              t).0
    create :
        {t : Tables} (enforce : Bool) (name profile_name owner_id owner_name : Text)
        (empty mirrored : Bool) (stamp granted created : Stamp)
        → Reached t
        → Reached
            (create_filesystem enforce name profile_name owner_id owner_name empty mirrored stamp
              granted created t).0
    rollback :
        {t : Tables} (fs_id : Text) → Reached t → Reached (rollback_created_filesystem fs_id t)
    grant :
        {t : Tables} (fs_id actor target : Text) (role : AgentFsRole)
        (path_scopes : Option (List Text)) (now : ℕ) (stamps : ℕ → Stamp) (made created : Stamp)
        → Reached t
        → Reached (fs_grant fs_id actor target role path_scopes now stamps made created t).0
    revoke :
        {t : Tables} (fs_id actor target : Text) (now : ℕ) (stamps : ℕ → Stamp)
        → Reached t
        → Reached (fs_revoke fs_id actor target now stamps t).0
    share :
        {t : Tables} (fs_id actor target : Text) (stamp : Stamp)
        → Reached t
        → Reached (fs_share fs_id actor target stamp t).0
    accept :
        {t : Tables} (share_id agent_id installation_id : Text) (now accepted_at : ℕ)
        (stamp : Stamp)
        → Reached t
        → Reached (accept_share share_id agent_id installation_id now accepted_at stamp t).0
    issue :
        {t : Tables} (fs_id agent_id installation_id : Text) (stamp : Stamp)
        → Reached t
        → Reached (issue_credential fs_id agent_id installation_id stamp t).0
    hook_added :
        {t : Tables} (fs_id actor name : Text) (command : List Text) (stamp : Stamp)
        → Reached t
        → Reached (add_hook fs_id actor name command stamp t).0
    hook_removed :
        {t : Tables} (fs_id actor hook_id : Text)
        → Reached t
        → Reached (remove_hook fs_id actor hook_id t).0

fs_share-Kept :
    (fs_id actor target : Text) (stamp : Stamp) (t : Tables)
    → Kept t (fs_share fs_id actor target stamp t).0
unfolding fs_share
fs_share-Kept fs_id actor target stamp t =
    finish_transaction-Kept t
      (checked (guard (agent_exists target t) unknown_agent)
        (share_body fs_id actor target stamp t))
      (λ t' result h.
        let (_, _, body) = >>=-eq-ok (guard (agent_exists target t) unknown_agent) _ h in
        share_body-Kept fs_id actor target stamp t t' result body)

login_agent-Kept :
    (sha256_hex : Text → Text) (raw_name : Text) (installation given : Option Text) (now : ℕ)
    (random token installation_random : Text) (t : Tables)
    → Kept t
        (login_agent sha256_hex raw_name installation given now random token installation_random
          t).0
unfolding login_agent
login_agent-Kept sha256_hex raw_name installation given now random token installation_random t =
    let name = trim raw_name in
    finish_transaction-Kept t
      (checked (guard (not (is_empty name)) empty_name)
        (login_body sha256_hex name installation given now random token installation_random t))
      (λ t' agent h.
        let (_, _, body) = >>=-eq-ok (guard (not (is_empty name)) empty_name) _ h in
        login_body-Kept sha256_hex name installation given now random token installation_random t t'
          agent body)

-- In every store that the operations lead to, no two grants have the same `grant_id`, an agent has at
-- most one active grant on a filesystem, each grant has the capabilities of its role and is of a
-- filesystem that is there, and the events of each filesystem are numbered from 1 in their order.
pub reached-IsSound : (sha256_hex : Text → Text) (t : Tables) → Reached sha256_hex t → IsSound t
unfolding new_store accept_share issue_credential add_hook remove_hook
reached-IsSound sha256_hex _ (start profiles) = record {
  grants = record { distinct = tt; single = λ f a. omega arith; roles = refl };
  homed = refl;
  numbered = λ f. tt;
}
reached-IsSound h _ (login {t} name installation given now random token installation_random r) =
    Kept-IsSound t _
      (login_agent-Kept h name installation given now random token installation_random t)
      (reached-IsSound h t r)
reached-IsSound h _
      (create {t} enforce name profile_name owner_id owner_name empty mirrored stamp granted created
        r) =
    create_filesystem-IsSound enforce name profile_name owner_id owner_name empty mirrored stamp
      granted created t (reached-IsSound h t r)
reached-IsSound h _ (rollback {t} fs_id r) = rollback-IsSound fs_id t (reached-IsSound h t r)
reached-IsSound h _ (grant {t} fs_id actor target role path_scopes now stamps made created r) =
    fs_grant-IsSound fs_id actor target role path_scopes now stamps made created t
      (reached-IsSound h t r)
reached-IsSound h _ (revoke {t} fs_id actor target now stamps r) =
    fs_revoke-IsSound fs_id actor target now stamps t (reached-IsSound h t r)
reached-IsSound h _ (share {t} fs_id actor target stamp r) =
    Kept-IsSound t _ (fs_share-Kept fs_id actor target stamp t) (reached-IsSound h t r)
reached-IsSound h _ (accept {t} share_id agent_id installation_id now accepted_at stamp r) =
    Kept-IsSound t _
      (finish_transaction-Kept t
        (accept_body share_id agent_id installation_id now accepted_at stamp t)
        (λ t' (share', issued) e.
          accept_body-Kept share_id agent_id installation_id now accepted_at stamp t t' share'
            issued e))
      (reached-IsSound h t r)
reached-IsSound h _ (issue {t} fs_id agent_id installation_id stamp r) =
    Kept-IsSound t _
      (finish_transaction-Kept t (issue_body fs_id agent_id installation_id stamp t)
        (issue_body-Kept fs_id agent_id installation_id stamp t))
      (reached-IsSound h t r)
reached-IsSound h _ (hook_added {t} fs_id actor name command stamp r) =
    Kept-IsSound t _
      (finish_transaction-Kept t (add_body fs_id actor name command stamp t)
        (add_body-Kept fs_id actor name command stamp t))
      (reached-IsSound h t r)
reached-IsSound h _ (hook_removed {t} fs_id actor hook_id r) =
    Kept-IsSound t _
      (finish_transaction-Kept t (remove_body fs_id actor hook_id t)
        (remove_body-Kept fs_id actor hook_id t))
      (reached-IsSound h t r)
