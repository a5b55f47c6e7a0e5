-- ===== src/Service/Grants/Rights.antt =====
-- What `fs_grant` and `fs_revoke` change about who may do what.
use section.Base.{
  ℕ, ◌≡◌, refl, ap, Bool, true, false, not, ◌&&◌, ◌||◌, List, [], ◌∷◌, any, map, contains,
  if◌then◌else◌, ◌==◌, ==_iff, ==_refl, nat_eq, list_eq, arith, ok, err, >>=-eq-ok, is_ok,
}
use section.Base.Text.{Text}
use section.AgentFs.Access.{
  AgentFsCapability, manage, capability_eq, AgentFsRecord, AgentFsGrantRecord, is_active, is_owner,
  has_capability,
}
use section.AgentFs.Access.Agreement.{authorize_capability_for_fs-has_capability}
use section.AgentFs.Metadata.{validate_agent_id}
use section.Service.{
  Tables, invalid_agent_id, Body, Stamp, insert_by, known_filesystem, require_capability,
  finish_transaction,
}
use section.Service.Grants.{
  RevokeMutationResult, is_target, as_revoked, active_grants, revoke_loop, revoke_all, revoke_body,
  fs_revoke, with_error,
}
use section.Service.Grants.Revocation.{Distinct, revoke_if, revoke_loop-revokes}

-- A grant that gives an agent a capability on a filesystem.
abbrev pub gives : Text → Text → AgentFsCapability → AgentFsGrantRecord → Bool
gives fs_id agent_id capability grant =
    grant.fs_id == fs_id
    && (grant.agent_id == agent_id && (is_active grant && contains grant.capabilities capability))

any-revoked :
    (fs_id target f_id agent_id by : Text) (now : ℕ) (capability : AgentFsCapability)
    (rows : List AgentFsGrantRecord)
    → any (gives f_id agent_id capability) (map (revoke_if (is_target fs_id target) now by) rows)
      ≡ (any (gives f_id agent_id capability) rows && not (f_id == fs_id && agent_id == target))
unfolding as_revoked
any-revoked fs_id target f_id agent_id by now capability [] = refl
any-revoked fs_id target f_id agent_id by now capability (x ∷ rows) = ground (
  arith,
  any-revoked fs_id target f_id agent_id by now capability rows,
  ==_iff x.fs_id fs_id,
  ==_iff x.fs_id f_id,
  ==_iff x.agent_id target,
  ==_iff x.agent_id agent_id,
  ==_iff f_id fs_id,
  ==_iff agent_id target,
)

pub any-insert_by {ℓ} :
    {A : Type ℓ} (no_later : A → A → Bool) (p : A → Bool) (x : A) (ys : List A)
    → any p (insert_by no_later x ys) ≡ (p x || any p ys)
unfolding insert_by
any-insert_by no_later p x [] = refl
any-insert_by no_later p x (y ∷ ys) = ground (arith, any-insert_by no_later p x ys)

-- A transaction that succeeded is its body, which succeeded.
pub finish_transaction-ok :
    {A : Type 0} (before after : Tables) (body : Body A) (value : A)
    → finish_transaction before body ≡ (after, ok value)
    → body ≡ ok (after, value)
unfolding finish_transaction
finish_transaction-ok before after (ok (t, v)) value h = ground arith
finish_transaction-ok before after (err e) value h = ground arith

pub require_capability-ok :
    (fs : AgentFsRecord) (agent_id : Text) (capability : AgentFsCapability) (t : Tables)
    → is_ok (require_capability fs agent_id capability t)
      ≡ has_capability fs t.grants agent_id capability
unfolding require_capability
require_capability-ok fs agent_id capability t =
    ground (arith, authorize_capability_for_fs-has_capability fs t.grants agent_id capability)

-- The effects of the two transactions on the table of grants.
revoke_all-effect :
    (fs : AgentFsRecord) (actor target : Text) (now : ℕ) (stamps : ℕ → Stamp) (t t' : Tables)
    (result : RevokeMutationResult)
    → Distinct t.grants
    → revoke_all fs actor target now stamps t ≡ ok (t', result)
    → t' ≡ record t {
      grants = map (revoke_if (is_target fs.fs_id target) now actor) t.grants;
      events = t'.events;
    }
unfolding revoke_all
revoke_all-effect fs actor target now stamps t t' result distinct h =
    let loop = revoke_loop fs.fs_id actor now stamps (active_grants fs.fs_id target t) t in
    let ((t1, (revoked, events)), looped, h1) = >>=-eq-ok loop _ h in
    let effect =
      revoke_loop-revokes fs.fs_id actor target now stamps t t1 revoked events distinct looped in
    ground (arith, effect, h1)

-- The guards of a transaction that succeeded.
pub revoke_body-ok :
    (fs_id actor target : Text) (now : ℕ) (stamps : ℕ → Stamp) (t t' : Tables)
    (result : RevokeMutationResult) (fs : AgentFsRecord)
    → known_filesystem fs_id t ≡ ok fs
    → revoke_body fs_id actor target now stamps t ≡ ok (t', result)
    → (is_ok (require_capability fs actor manage t) ≡ true)
      × ((target == fs.owner_agent_id) ≡ false)
      × (revoke_all fs actor target now stamps t ≡ ok (t', result))
unfolding revoke_body
revoke_body-ok fs_id actor target now stamps t t' result fs known h =
    let opened = (rw known at h) in ground arith

pub fs_revoke-effect :
    (fs_id actor target : Text) (now : ℕ) (stamps : ℕ → Stamp) (t t' : Tables)
    (result : RevokeMutationResult) (fs : AgentFsRecord)
    → Distinct t.grants
    → known_filesystem fs_id t ≡ ok fs
    → fs_revoke fs_id actor target now stamps t ≡ (t', ok result)
    → (t' ≡ record t {
      grants = map (revoke_if (is_target fs.fs_id target) now actor) t.grants;
      events = t'.events;
    })
      × (has_capability fs t.grants actor manage ≡ true)
      × ((target == fs.owner_agent_id) ≡ false)
unfolding fs_revoke revoke_body
fs_revoke-effect fs_id actor target now stamps t t' result fs distinct known h =
    let (_, _, body) =
      >>=-eq-ok (with_error invalid_agent_id (validate_agent_id target)) _
        (finish_transaction-ok t t' _ result h) in
    let (allowed, other, revoked) =
      revoke_body-ok fs_id actor target now stamps t t' result fs known body in
    (
      revoke_all-effect fs actor target now stamps t t' result distinct revoked,
      ground (arith, allowed, require_capability-ok fs actor manage t),
      other,
    )

pub has_capability-revoked :
    (f : AgentFsRecord) (grants grants' : List AgentFsGrantRecord) (fs_id target agent_id by : Text)
    (now : ℕ) (capability : AgentFsCapability)
    → grants' ≡ map (revoke_if (is_target fs_id target) now by) grants
    → has_capability f grants' agent_id capability ≡ (
        if f.fs_id == fs_id && agent_id == target
        then is_owner f grants' agent_id capability
        else has_capability f grants agent_id capability)
unfolding has_capability
has_capability-revoked f grants grants' fs_id target agent_id by now capability e =
    rw e (ground (arith, any-revoked fs_id target f.fs_id agent_id by now capability grants))

-- Revoking succeeds only for an agent that may manage the filesystem. Then the target, which is not the
-- owner, has no capability on the filesystem any more. For all other agents and filesystems the
-- capabilities are as before. No two rows of the table have the same `grant_id`.
pub fs_revoke-rights :
    (fs_id actor target : Text) (now : ℕ) (stamps : ℕ → Stamp) (t t' : Tables)
    (result : RevokeMutationResult) (fs f : AgentFsRecord) (agent_id : Text)
    (capability : AgentFsCapability)
    → Distinct t.grants
    → known_filesystem fs_id t ≡ ok fs
    → fs_revoke fs_id actor target now stamps t ≡ (t', ok result)
    → (has_capability fs t.grants actor manage ≡ true)
      × (has_capability fs t'.grants target capability ≡ false)
      × (has_capability f t'.grants agent_id capability ≡ (
          if f.fs_id == fs.fs_id && agent_id == target
          then is_owner f t'.grants agent_id capability
          else has_capability f t.grants agent_id capability))
fs_revoke-rights fs_id actor target now stamps t t' result fs f agent_id capability distinct known
      h =
    let (effect, allowed, other) =
      fs_revoke-effect fs_id actor target now stamps t t' result fs distinct known h in
    let grants : t'.grants ≡ map (revoke_if (is_target fs.fs_id target) now actor) t.grants =
      ap (λ (s : Tables). s.grants) effect in
    let of_target =
      has_capability-revoked fs t.grants t'.grants fs.fs_id target target actor now capability
        grants in
    let of_any =
      has_capability-revoked f t.grants t'.grants fs.fs_id target agent_id actor now capability
        grants in
    (
      allowed,
      ground (
        arith,
        of_target,
        other,
        ==_refl fs.fs_id,
        ==_refl target,
        ==_iff fs.owner_agent_id target,
        ==_iff target fs.owner_agent_id,
      ),
      of_any,
    )
