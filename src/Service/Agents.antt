-- ===== src/Service/Agents.antt =====
-- Agents of the control service, crates/sectiond/src/control_service.rs: `login_agent` and
-- `authenticate_agent`. The digest SHA-256, in hexadecimal digits, is that of a library: it is the
-- parameter `sha256_hex`.
pub mod Login
use section.Base.{
  ℕ, Bool, true, false, not, ◌&&◌, ◌||◌, Option, none, some, List, [], ◌∷◌, ◌++◌, any, find, map,
  is_empty, if◌then◌else◌, ◌==◌, nat_eq, list_eq, Result, ok, err, ◌>>=◌, ◌>>◌, guard,
}
use section.Base.Text.{Text, codes, trim}
use section.Service.{
  AgentRow, InstallationRow, Tables, ServiceError, unknown_agent, empty_name, sql_error, Body,
  Stamp, finish_transaction, found,
}
use section.Service.Grants.{checked}

pub record AgentIdentityRecord : Type 0 where
  pub agent_id : Text
  pub installation_id : Text
  pub name : Text
  pub auth_token : Text
  pub created_at_ms : ℕ
  pub updated_at_ms : ℕ

unfoldable pub installation_belongs_to_agent : Text → Text → Tables → Bool
installation_belongs_to_agent installation_id agent_id t =
    any (λ i. i.installation_id == installation_id && i.agent_id == agent_id) t.installations

-- `find_agent_by_name`, with the hash still beside its row.
unfoldable pub find_agent_by_name : Text → Tables → Option AgentRow
find_agent_by_name name t = find (λ a. a.name == name) t.agents

unfoldable pub insert_installation : Text → Text → ℕ → Tables → Result ServiceError Tables
insert_installation installation_id agent_id now t = do
  guard (not (any (λ i. i.installation_id == installation_id) t.installations)) sql_error
  ok (record t {
    installations =
        t.installations
        ++ record {
          installation_id = installation_id;
          agent_id = agent_id;
          created_at_ms = now;
          updated_at_ms = now;
        }
          ∷ [];
  })

-- `UPDATE .. SET updated_at_ms = .. WHERE ..`
unfoldable pub touch_agent : Text → ℕ → Tables → Tables
touch_agent agent_id now t = record t {
  agents =
      map (λ a. if a.agent_id == agent_id then record a { updated_at_ms = now } else a) t.agents;
}

unfoldable pub touch_installation : Text → ℕ → Tables → Tables
touch_installation installation_id now t = record t {
  installations =
      map
        (λ i. if i.installation_id == installation_id then record i { updated_at_ms = now } else i)
        t.installations;
}

unfoldable pub new_installation : Text → ℕ → Text → Tables → Body Text
unfolding insert_installation
new_installation agent_id now random t = do
  t' ← insert_installation (codes "ins_" ++ random) agent_id now t
  ok (t', codes "ins_" ++ random)

-- The installation of a login: the given one if it is the agent's, and else a new one.
unfoldable pub login_installation : Option Text → Text → ℕ → Text → Tables → Body Text
unfolding installation_belongs_to_agent touch_installation new_installation
login_installation none agent_id now random t = new_installation agent_id now random t
login_installation (some installation_id) agent_id now random t =
    if installation_belongs_to_agent installation_id agent_id t
    then ok (touch_installation installation_id now t, installation_id)
    else new_installation agent_id now random t

module _ (sha256_hex : Text → Text) where
  unfoldable pub hash_auth_token : Text → Text
  hash_auth_token token = codes "sha256:" ++ sha256_hex token

  unfoldable pub verify_auth_token : Text → Text → Bool
  unfolding hash_auth_token
  verify_auth_token token expected_hash =
      not (is_empty token) && hash_auth_token token == expected_hash

  -- The row of a new agent.
  unfoldable pub new_agent_row : Text → Text → Text → ℕ → AgentRow
  unfolding hash_auth_token
  new_agent_row name random token now = record {
    agent_id = codes "agt_" ++ random;
    name = name;
    auth_token_hash = hash_auth_token token;
    created_at_ms = now;
    updated_at_ms = now;
  }

  -- The identity of a row, with the token that is known for it and no installation yet.
  unfoldable pub identity : AgentRow → Text → ℕ → AgentIdentityRecord
  identity row token now = record {
    agent_id = row.agent_id;
    installation_id = [];
    name = row.name;
    auth_token = token;
    created_at_ms = row.created_at_ms;
    updated_at_ms = now;
  }

  unfoldable pub register_agent : Text → Text → Text → ℕ → Tables → Body AgentIdentityRecord
  unfolding new_agent_row identity
  register_agent name random token now t = do
    let row = new_agent_row name random token now
    guard (not (any (λ a. a.agent_id == row.agent_id || a.name == row.name) t.agents)) sql_error
    ok (record t { agents = t.agents ++ row ∷ [] }, identity row token now)

  unfoldable pub known_agent : AgentRow → Option Text → ℕ → Tables → Body AgentIdentityRecord
  unfolding verify_auth_token touch_agent identity
  known_agent row given now t = do
    token ← found unknown_agent given
    guard (verify_auth_token token row.auth_token_hash) unknown_agent
    ok (touch_agent row.agent_id now t, identity row token now)

  -- The agent of a login: the one of that name, or a new one with the token `auth_` and `token`.
  unfoldable pub login_identity :
      Option AgentRow → Text → Option Text → Text → Text → ℕ → Tables → Body AgentIdentityRecord
  unfolding known_agent register_agent
  login_identity (some row) name given random token now t = known_agent row given now t
  login_identity none name given random token now t =
      register_agent name random (codes "auth_" ++ token) now t

  unfoldable pub login_body :
      Text → Option Text → Option Text → ℕ → Text → Text → Text → Tables → Body AgentIdentityRecord
  unfolding find_agent_by_name login_identity login_installation
  login_body name installation given now random token installation_random t = do
    (t', agent) ← login_identity (find_agent_by_name name t) name given random token now t
    (t'', installation_id) ←
        login_installation installation agent.agent_id now installation_random t'
    ok (t'', record agent { installation_id = installation_id })

  unfoldable pub login_agent :
      Text
      → Option Text
      → Option Text
      → ℕ
      → Text
      → Text
      → Text
      → Tables
      → Tables × Result ServiceError AgentIdentityRecord
  unfolding login_body finish_transaction
  login_agent raw_name installation given now random token installation_random t =
      let name = trim raw_name in
      finish_transaction t (
        checked (guard (not (is_empty name)) empty_name)
          (login_body name installation given now random token installation_random t))

  unfoldable pub authenticate_agent : AgentIdentityRecord → Tables → Result ServiceError (Unit {0})
  unfolding verify_auth_token installation_belongs_to_agent
  authenticate_agent agent t = do
    guard (not (is_empty (trim agent.auth_token))) unknown_agent
    row ← found unknown_agent (find (λ a. a.agent_id == agent.agent_id) t.agents)
    guard (verify_auth_token agent.auth_token row.auth_token_hash) unknown_agent
    guard (installation_belongs_to_agent agent.installation_id agent.agent_id t) unknown_agent
