-- ===== src/Service/Agents/Login.antt =====
-- What a login returns authenticates.
use section.Base.{
  Bool-cases, inl, inr, ℕ, ◌≡◌, refl, sym, ap, ◌∙◌, Bool, true, false, not, ◌&&◌, ◌||◌, Option,
  none, some, List, [], ◌∷◌, ◌++◌, any, find, map, is_empty, if◌then◌else◌, ◌==◌, ==_iff, ==_refl,
  nat_eq, list_eq, arith, ok, >>=-eq-ok, guard,
}
use section.Base.Text.{Text, codes, trim}
use section.Service.{AgentRow, InstallationRow, Tables, empty_name}
use section.Service.Grants.Rights.{finish_transaction-ok}
use section.Service.Agents.{
  AgentIdentityRecord, installation_belongs_to_agent, find_agent_by_name, insert_installation,
  touch_agent, touch_installation, new_installation, login_installation, hash_auth_token,
  verify_auth_token, new_agent_row, identity, register_agent, known_agent, login_identity,
  login_body, login_agent, authenticate_agent,
}

-- The primary key of the table of agents.
abbrev pub AgentsDistinct : List AgentRow → Type 0
AgentsDistinct [] = Unit
AgentsDistinct (a ∷ agents) =
    (any (λ b. b.agent_id == a.agent_id) agents ≡ false) × AgentsDistinct agents

found_apart :
    (p q : AgentRow → Bool) (agents : List AgentRow) (row : AgentRow)
    → find p agents ≡ some row
    → any q agents ≡ false
    → q row ≡ false
found_apart p q [] row h apart = absurd cc
found_apart p q (a ∷ agents) row h apart = ground (arith, found_apart p q agents row)

found_touched :
    (name : Text) (now : ℕ) (agents : List AgentRow) (row : AgentRow)
    → AgentsDistinct agents
    → find (λ a. a.name == name) agents ≡ some row
    → find
        (λ a. a.agent_id == row.agent_id)
        (map
          (λ a. if a.agent_id == row.agent_id then record a { updated_at_ms = now } else a)
          agents)
      ≡ some (record row { updated_at_ms = now })
found_touched name now [] row d h = absurd cc
found_touched name now (a ∷ agents) row (apart, d) h = elim (Bool-cases (a.name == name)) [
  | inl e ↦
      let same : a ≡ row = ground (arith, h, e) in
      ground (arith, same, ==_iff a.agent_id row.agent_id, ==_refl row.agent_id)
  | inr e ↦
      let found' : find (λ b. b.name == name) agents ≡ some row = (rw e at h) in
      let other =
        found_apart (λ b. b.name == name) (λ b. b.agent_id == a.agent_id) agents row found' apart in
      ground (
        arith,
        found_touched name now agents row d found',
        other,
        ==_iff row.agent_id a.agent_id,
        ==_iff a.agent_id row.agent_id,
      )
]

found_last :
    (row : AgentRow) (agents : List AgentRow)
    → any (λ a. a.agent_id == row.agent_id || a.name == row.name) agents ≡ false
    → find (λ a. a.agent_id == row.agent_id) (agents ++ row ∷ []) ≡ some row
found_last row [] h = ground (arith, ==_refl row.agent_id)
found_last row (a ∷ agents) h = ground (arith, found_last row agents)

belongs-touched :
    (id agent_id : Text) (now : ℕ) (rows : List InstallationRow)
    → any
        (λ i. i.installation_id == id && i.agent_id == agent_id)
        (map (λ i. if i.installation_id == id then record i { updated_at_ms = now } else i) rows)
      ≡ any (λ i. i.installation_id == id && i.agent_id == agent_id) rows
belongs-touched id agent_id now [] = refl
belongs-touched id agent_id now (i ∷ rows) = ground (arith, belongs-touched id agent_id now rows)

belongs-append :
    (id agent_id : Text) (rows : List InstallationRow) (row : InstallationRow)
    → row.installation_id ≡ id
    → row.agent_id ≡ agent_id
    → any (λ i. i.installation_id == id && i.agent_id == agent_id) (rows ++ row ∷ []) ≡ true
belongs-append id agent_id [] row e f =
    ground (arith, ==_iff row.installation_id id, ==_iff row.agent_id agent_id)
belongs-append id agent_id (i ∷ rows) row e f = ground (arith, belongs-append id agent_id rows row)

new_installation-belongs :
    (agent_id : Text) (now : ℕ) (random : Text) (t t' : Tables) (id : Text)
    → new_installation agent_id now random t ≡ ok (t', id)
    → (installation_belongs_to_agent id agent_id t' ≡ true) × (t'.agents ≡ t.agents)
unfolding new_installation insert_installation installation_belongs_to_agent
new_installation-belongs agent_id now random t t' id h =
    let new : InstallationRow = record {
      installation_id = codes "ins_" ++ random;
      agent_id = agent_id;
      created_at_ms = now;
      updated_at_ms = now;
    } in
    ground (arith, belongs-append (codes "ins_" ++ random) agent_id t.installations new refl refl)

login_installation-belongs :
    (installation : Option Text) (agent_id : Text) (now : ℕ) (random : Text) (t t' : Tables)
    (id : Text)
    → login_installation installation agent_id now random t ≡ ok (t', id)
    → (installation_belongs_to_agent id agent_id t' ≡ true) × (t'.agents ≡ t.agents)
unfolding login_installation touch_installation installation_belongs_to_agent
login_installation-belongs none agent_id now random t t' id h =
    new_installation-belongs agent_id now random t t' id h
login_installation-belongs (some installation) agent_id now random t t' id h = ground (
  arith,
  belongs-touched installation agent_id now t.installations,
  new_installation-belongs agent_id now random t t' id,
)

known_agent-row :
    (sha256_hex : Text → Text) (row : AgentRow) (name : Text) (given : Option Text) (now : ℕ)
    (t t' : Tables) (agent : AgentIdentityRecord)
    → AgentsDistinct t.agents
    → find (λ a. a.name == name) t.agents ≡ some row
    → known_agent sha256_hex row given now t ≡ ok (t', agent)
    → (row' : AgentRow) × (find (λ a. a.agent_id == agent.agent_id) t'.agents ≡ some row')
      × (verify_auth_token sha256_hex agent.auth_token row'.auth_token_hash ≡ true)
unfolding known_agent touch_agent identity
known_agent-row sha256_hex row name none now t t' agent distinct found' h = absurd cc
known_agent-row sha256_hex row name (some token) now t t' agent distinct found' h = (
  record row { updated_at_ms = now },
  ground (arith, h, found_touched name now t.agents row distinct found'),
  ground (arith, h),
)

register_agent-row :
    (sha256_hex : Text → Text) (name random token : Text) (now : ℕ) (t t' : Tables)
    (agent : AgentIdentityRecord)
    → is_empty token ≡ false
    → register_agent sha256_hex name random token now t ≡ ok (t', agent)
    → (row' : AgentRow) × (find (λ a. a.agent_id == agent.agent_id) t'.agents ≡ some row')
      × (verify_auth_token sha256_hex agent.auth_token row'.auth_token_hash ≡ true)
unfolding register_agent identity new_agent_row verify_auth_token
register_agent-row sha256_hex name random token now t t' agent some_token h =
    let row = new_agent_row sha256_hex name random token now in
    (
      row,
      ground (arith, h, found_last row t.agents),
      ground (arith, h, some_token, ==_refl (hash_auth_token sha256_hex token)),
    )

login_row :
    (sha256_hex : Text → Text) (name : Text) (given : Option Text) (random token : Text) (now : ℕ)
    (t t' : Tables) (agent : AgentIdentityRecord) (known : Option AgentRow)
    → AgentsDistinct t.agents
    → find (λ a. a.name == name) t.agents ≡ known
    → login_identity sha256_hex known name given random token now t ≡ ok (t', agent)
    → (row : AgentRow) × (find (λ a. a.agent_id == agent.agent_id) t'.agents ≡ some row)
      × (verify_auth_token sha256_hex agent.auth_token row.auth_token_hash ≡ true)
unfolding login_identity
login_row sha256_hex name given random token now t t' agent (some row) distinct found' h =
    known_agent-row sha256_hex row name given now t t' agent distinct found' h
login_row sha256_hex name given random token now t t' agent none distinct found' h =
    register_agent-row sha256_hex name random (codes "auth_" ++ token) now t t' agent refl h

-- The row that a login leaves in the table for the agent that it returns.
login_identity-row :
    (sha256_hex : Text → Text) (name : Text) (given : Option Text) (random token : Text) (now : ℕ)
    (t t' : Tables) (agent : AgentIdentityRecord)
    → AgentsDistinct t.agents
    → login_identity sha256_hex (find_agent_by_name name t) name given random token now t
      ≡ ok (t', agent)
    → (row : AgentRow) × (find (λ a. a.agent_id == agent.agent_id) t'.agents ≡ some row)
      × (verify_auth_token sha256_hex agent.auth_token row.auth_token_hash ≡ true)
unfolding find_agent_by_name
login_identity-row sha256_hex name given random token now t t' agent distinct h =
    login_row sha256_hex name given random token now t t' agent
      (find (λ a. a.name == name) t.agents) distinct refl h

known_authenticates :
    (sha256_hex : Text → Text) (agent : AgentIdentityRecord) (t : Tables) (row : AgentRow)
    → is_empty (trim agent.auth_token) ≡ false
    → find (λ a. a.agent_id == agent.agent_id) t.agents ≡ some row
    → verify_auth_token sha256_hex agent.auth_token row.auth_token_hash ≡ true
    → installation_belongs_to_agent agent.installation_id agent.agent_id t ≡ true
    → authenticate_agent sha256_hex agent t ≡ ok tt
unfolding authenticate_agent
known_authenticates sha256_hex agent t row blank stored verified belongs =
    ground (arith, blank, stored, verified, belongs)

-- The agent that a login returns, with a token that is not blank, authenticates in the store that the
-- login leaves. No two rows of the agents have the same `agent_id`.
pub login_agent-authenticates :
    (sha256_hex : Text → Text) (raw_name : Text) (installation given : Option Text) (now : ℕ)
    (random token installation_random : Text) (t t' : Tables) (agent : AgentIdentityRecord)
    → AgentsDistinct t.agents
    → login_agent sha256_hex raw_name installation given now random token installation_random t
      ≡ (t', ok agent)
    → is_empty (trim agent.auth_token) ≡ false
    → authenticate_agent sha256_hex agent t' ≡ ok tt
unfolding login_agent login_body
login_agent-authenticates sha256_hex raw_name installation given now random token
      installation_random t t' agent distinct h blank =
    let name = trim raw_name in
    let (_, _, body) =
      >>=-eq-ok (guard (not (is_empty name)) empty_name) _ (finish_transaction-ok t t' _ agent h) in
    let known = find_agent_by_name name t in
    let ((t1, first), h1, h2) =
      >>=-eq-ok (login_identity sha256_hex known name given random token now t) _ body in
    let ((t2, id), h3, h4) =
      >>=-eq-ok (login_installation installation first.agent_id now installation_random t1) _ h2 in
    let (row, stored, verified) =
      login_identity-row sha256_hex name given random token now t t1 first distinct h1 in
    let (belongs, kept) =
      login_installation-belongs installation first.agent_id now installation_random t1 t2 id h3 in
    let same_agent : record first { installation_id = id } ≡ agent = ground (arith, h4) in
    let same_tables : t2 ≡ t' = ground (arith, h4) in
    let token_same : first.auth_token ≡ agent.auth_token =
      ap (λ (a : AgentIdentityRecord). a.auth_token) same_agent in
    let there : authenticate_agent sha256_hex (record first { installation_id = id }) t2 ≡ ok tt =
      known_authenticates sha256_hex (record first { installation_id = id }) t2 row
        (ap (λ s. is_empty (trim s)) token_same ∙ blank)
        (ap (λ l. find (λ a. a.agent_id == first.agent_id) l) kept ∙ stored) verified belongs in
    sym (ap (authenticate_agent sha256_hex agent) same_tables)
    ∙ sym (ap (λ a. authenticate_agent sha256_hex a t2) same_agent)
    ∙ there
