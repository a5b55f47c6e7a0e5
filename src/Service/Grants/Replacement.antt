-- ===== src/Service/Grants/Replacement.antt =====
-- What a successful `fs_grant` changes: the target holds the new role, and it alone.
use section.Base.{
  ℕ, ◌≡◌, refl, sym, subst, ap, true, false, not, ◌&&◌, ◌||◌, Option, none, List, any, map,
  if◌then◌else◌, ◌==◌, ==_iff, ==_refl, nat_eq, list_eq, arith, ok, >>=-eq-ok, is_ok,
}
use section.Base.Text.{Text, codes}
use section.AgentFs.Access.{
  AgentFsCapability, commit, manage, capability_eq, AgentFsRole, capabilities, role_has_capability,
  AgentFsRecord, AgentFsGrantRecord, is_owner, has_capability,
}
use section.AgentFs.NewRecords.{grant_record, event_record}
use section.Service.{
  Tables, invalid_path_scope, Stamp, insert_by, grant_no_later, insert_grant, insert_event,
  known_filesystem, require_capability,
}
use section.Service.Grants.{
  GrantMutationResult, is_target, active_grants, revoke_loop, with_error, check_replacement,
  replace_grant, grant_body, check_grant, fs_grant,
}
use section.Service.Grants.Revocation.{Distinct, revoke_if, revoke_loop-revokes, insert_event-rest}
use section.Service.Grants.Rights.{
  gives, any-insert_by, finish_transaction-ok, require_capability-ok, has_capability-revoked,
}

-- The fields of a new grant.
pub record IsNewGrant (fs : AgentFsRecord) (agent_id : Text) (role : AgentFsRole)
    (path_scopes : Option (List Text)) (grant : AgentFsGrantRecord) : Type 0 where
  pub of_filesystem : grant.fs_id ≡ fs.fs_id
  pub of_agent : grant.agent_id ≡ agent_id
  pub of_role : grant.role ≡ role
  pub of_capabilities : grant.capabilities ≡ capabilities role
  pub of_scopes : grant.path_scopes ≡ path_scopes
  pub not_revoked : grant.revoked_at_ms ≡ none

pub grant_record-IsNewGrant :
    (fs : AgentFsRecord) (agent_id : Text) (role : AgentFsRole) (by : Text)
    (path_scopes : Option (List Text)) (random : Text) (now : ℕ) (grant : AgentFsGrantRecord)
    → with_error invalid_path_scope (grant_record fs agent_id role by path_scopes random now)
      ≡ ok grant
    → IsNewGrant fs agent_id role path_scopes grant
unfolding grant_record
grant_record-IsNewGrant fs agent_id role by path_scopes random now grant h = ground arith

pub insert_grant-rest :
    (grant : AgentFsGrantRecord) (t t' : Tables)
    → insert_grant grant t ≡ ok t'
    → (t' ≡ record t { grants = insert_by grant_no_later grant t.grants })
      × (any (λ g. g.grant_id == grant.grant_id) t.grants ≡ false)
unfolding insert_grant
insert_grant-rest grant t t' h = ground arith

-- The table after a replacement: the active grants of the target are revoked, and the new one is in.
abbrev pub replaced :
    AgentFsRecord
    → Text
    → Text
    → ℕ
    → AgentFsGrantRecord
    → List AgentFsGrantRecord
    → List AgentFsGrantRecord
replaced fs actor target now grant grants =
    insert_by grant_no_later grant (map (revoke_if (is_target fs.fs_id target) now actor) grants)

replace_grant-effect :
    (fs : AgentFsRecord) (actor target : Text) (role : AgentFsRole)
    (path_scopes : Option (List Text)) (now : ℕ) (stamps : ℕ → Stamp) (made created : Stamp)
    (t t' : Tables) (result : GrantMutationResult)
    → Distinct t.grants
    → replace_grant fs actor target role path_scopes now stamps made created t ≡ ok (t', result)
    → (t' ≡ record t {
      grants = replaced fs actor target now result.grant t.grants;
      events = t'.events;
    })
      × IsNewGrant fs target role path_scopes result.grant
      × (any
            (λ g. g.grant_id == result.grant.grant_id)
            (map (revoke_if (is_target fs.fs_id target) now actor) t.grants)
          ≡ false)
unfolding replace_grant
replace_grant-effect fs actor target role path_scopes now stamps made created t t' result distinct
      h =
    let loop = revoke_loop fs.fs_id actor now stamps (active_grants fs.fs_id target t) t in
    let ((t1, (revoked, events)), looped, h1) = >>=-eq-ok loop _ h in
    let effect =
      revoke_loop-revokes fs.fs_id actor target now stamps t t1 revoked events distinct looped in
    let (grant, new, h2) =
      >>=-eq-ok
        (with_error invalid_path_scope
          (grant_record fs target role actor path_scopes made.random made.at))
        _ h1 in
    let (t2, inserted, h3) = >>=-eq-ok (insert_grant grant t1) _ h2 in
    let event =
      event_record fs.fs_id (codes "grant.created") actor grant.grant_id none created.random
        created.at in
    let ((t3, numbered), logged, h4) = >>=-eq-ok (insert_event event t2) _ h3 in
    let fields =
      grant_record-IsNewGrant fs target role actor path_scopes made.random made.at grant new in
    let (with_grant, fresh) = insert_grant-rest grant t1 t2 inserted in
    let last = insert_event-rest event numbered t2 t3 logged in
    let grants1 : t1.grants ≡ map (revoke_if (is_target fs.fs_id target) now actor) t.grants =
      ap (λ (s : Tables). s.grants) effect in
    let mine : grant ≡ result.grant = ground (arith, h4) in
    (
      ground (arith, effect, with_grant, last, h4),
      subst (IsNewGrant fs target role path_scopes) mine fields,
      rw (sym mine, sym grants1) fresh,
    )

-- The guards of a transaction that succeeded.
pub grant_body-ok :
    (fs_id actor target : Text) (role : AgentFsRole) (path_scopes : Option (List Text)) (now : ℕ)
    (stamps : ℕ → Stamp) (made created : Stamp) (t t' : Tables) (result : GrantMutationResult)
    (fs : AgentFsRecord)
    → known_filesystem fs_id t ≡ ok fs
    → grant_body fs_id actor target role path_scopes now stamps made created t ≡ ok (t', result)
    → (is_ok (require_capability fs actor manage t) ≡ true)
      × (is_ok (check_replacement fs actor target role t) ≡ true)
      × (replace_grant fs actor target role path_scopes now stamps made created t ≡ ok (t', result))
unfolding grant_body
grant_body-ok fs_id actor target role path_scopes now stamps made created t t' result fs known h =
    let opened = (rw known at h) in ground arith

check_replacement-ok :
    (fs : AgentFsRecord) (actor target : Text) (role : AgentFsRole) (t : Tables)
    → is_ok (check_replacement fs actor target role t) ≡ (
        not (
          actor == target
          && (role_has_capability role commit
              && not (is_ok (require_capability fs actor commit t))))
        && not (target == fs.owner_agent_id))
unfolding check_replacement
check_replacement-ok fs actor target role t = ground arith

pub fs_grant-effect :
    (fs_id actor target : Text) (role : AgentFsRole) (path_scopes : Option (List Text)) (now : ℕ)
    (stamps : ℕ → Stamp) (made created : Stamp) (t t' : Tables) (result : GrantMutationResult)
    (fs : AgentFsRecord)
    → Distinct t.grants
    → known_filesystem fs_id t ≡ ok fs
    → fs_grant fs_id actor target role path_scopes now stamps made created t ≡ (t', ok result)
    → (is_ok (require_capability fs actor manage t) ≡ true)
      × (is_ok (check_replacement fs actor target role t) ≡ true)
      × (t' ≡ record t {
        grants = replaced fs actor target now result.grant t.grants;
        events = t'.events;
      })
      × IsNewGrant fs target role path_scopes result.grant
      × (any
            (λ g. g.grant_id == result.grant.grant_id)
            (map (revoke_if (is_target fs.fs_id target) now actor) t.grants)
          ≡ false)
unfolding fs_grant
fs_grant-effect fs_id actor target role path_scopes now stamps made created t t' result fs distinct
      known h =
    let (_, _, body) =
      >>=-eq-ok (check_grant target role path_scopes t) _ (finish_transaction-ok t t' _ result h) in
    let (allowed, checked', replacing) =
      grant_body-ok fs_id actor target role path_scopes now stamps made created t t' result fs known
        body in
    let (effect, fields, fresh) =
      replace_grant-effect fs actor target role path_scopes now stamps made created t t' result
        distinct replacing in
    (allowed, checked', effect, fields, fresh)

-- What the new row adds.
gives-IsNewGrant :
    (fs : AgentFsRecord) (target : Text) (role : AgentFsRole) (path_scopes : Option (List Text))
    (grant : AgentFsGrantRecord) (f_id agent_id : Text) (capability : AgentFsCapability)
    → IsNewGrant fs target role path_scopes grant
    → gives f_id agent_id capability grant
      ≡ (f_id == fs.fs_id && agent_id == target && role_has_capability role capability)
unfolding role_has_capability
gives-IsNewGrant fs target role path_scopes grant f_id agent_id capability new = ground (
  arith,
  ==_iff grant.fs_id f_id,
  ==_iff grant.agent_id agent_id,
  ==_iff f_id fs.fs_id,
  ==_iff agent_id target,
)

has_capability-inserted :
    (f : AgentFsRecord) (grant : AgentFsGrantRecord) (grants : List AgentFsGrantRecord)
    (agent_id : Text) (capability : AgentFsCapability)
    → has_capability f (insert_by grant_no_later grant grants) agent_id capability
      ≡ (gives f.fs_id agent_id capability grant || has_capability f grants agent_id capability)
unfolding has_capability
has_capability-inserted f grant grants agent_id capability =
    ground (arith, any-insert_by grant_no_later (gives f.fs_id agent_id capability) grant grants)

-- Granting a role succeeds only for an agent that may manage the filesystem, and for itself an agent
-- grants the capability to commit only if it has it. Afterwards the target, which is not the owner, has
-- the capabilities of the role and no others. For all other agents and filesystems the capabilities are
-- as before. No two rows of the table have the same `grant_id`.
pub fs_grant-rights :
    (fs_id actor target : Text) (role : AgentFsRole) (path_scopes : Option (List Text)) (now : ℕ)
    (stamps : ℕ → Stamp) (made created : Stamp) (t t' : Tables) (result : GrantMutationResult)
    (fs f : AgentFsRecord) (agent_id : Text) (capability : AgentFsCapability)
    → Distinct t.grants
    → known_filesystem fs_id t ≡ ok fs
    → fs_grant fs_id actor target role path_scopes now stamps made created t ≡ (t', ok result)
    → (has_capability fs t.grants actor manage ≡ true)
      × ((actor == target
            && role_has_capability role commit
            && not (has_capability fs t.grants actor commit))
          ≡ false)
      × (has_capability fs t'.grants target capability ≡ role_has_capability role capability)
      × (has_capability f t'.grants agent_id capability ≡ (
          if f.fs_id == fs.fs_id && agent_id == target
          then role_has_capability role capability || is_owner f t'.grants agent_id capability
          else has_capability f t.grants agent_id capability))
fs_grant-rights fs_id actor target role path_scopes now stamps made created t t' result fs f
      agent_id capability distinct known h =
    let (allowed, checked', effect, fields, _) =
      fs_grant-effect fs_id actor target role path_scopes now stamps made created t t' result fs
        distinct known h in
    let without = map (revoke_if (is_target fs.fs_id target) now actor) t.grants in
    let grants : t'.grants ≡ replaced fs actor target now result.grant t.grants =
      ap (λ (s : Tables). s.grants) effect in
    let manages = require_capability-ok fs actor manage t in
    let commits = require_capability-ok fs actor commit t in
    let both = check_replacement-ok fs actor target role t in
    let now_has : (r : AgentFsRecord) (a : Text)
        → has_capability r t'.grants a capability ≡ (
            if r.fs_id == fs.fs_id && a == target
            then role_has_capability role capability || is_owner r t'.grants a capability
            else has_capability r t.grants a capability) =
      λ r a. rw grants (
        ground (
          arith,
          has_capability-inserted r result.grant without a capability,
          gives-IsNewGrant fs target role path_scopes result.grant r.fs_id a capability fields,
          has_capability-revoked r t.grants without fs.fs_id target a actor now capability refl,
        )) in
    (
      ground (arith, allowed, manages),
      ground (arith, checked', both, commits),
      ground (
        arith,
        now_has fs target,
        checked',
        both,
        ==_refl fs.fs_id,
        ==_refl target,
        ==_iff fs.owner_agent_id target,
        ==_iff target fs.owner_agent_id,
      ),
      now_has f agent_id,
    )
