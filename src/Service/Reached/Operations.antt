-- ===== src/Service/Reached/Operations.antt =====
-- Each operation of the control service keeps the store sound.
use section.Base.{
  ℕ, ◌≡◌, sym, subst, ap, ◌∙◌, Option, List, all, map, nat_eq, list_eq, arith, ok, >>=-eq-ok,
}
use section.Base.Text.{Text}
use section.AgentFs.Access.{AgentFsRole, AgentFsRecord}
use section.AgentFs.Metadata.{validate_agent_id}
use section.Service.{Tables, invalid_agent_id, Stamp, finish_transaction, known_filesystem}
use section.Service.Grants.{
  GrantMutationResult, RevokeMutationResult, is_target, checked, with_error, check_grant,
  grant_body, fs_grant, revoke_body, fs_revoke,
}
use section.Service.Grants.Revocation.{revoke_if}
use section.Service.Grants.Rights.{fs_revoke-effect}
use section.Service.Grants.Replacement.{fs_grant-effect}
use section.Service.Grants.Invariant.{InOrder, revoked-InOrder, replaced-InOrder}
use section.Service.Log.{AllNumbered}
use section.Service.Log.Appends.{fs_grant-Logged, fs_revoke-Logged}
use section.Service.Unchanged.{Kept}
use section.Service.Reached.{
  IsSound, known_filesystem-is_known, is_known, homed-revoked, homed-insert_by,
  finish_transaction-IsSound,
}

pub Kept-IsSound : (t t' : Tables) → Kept t t' → IsSound t → IsSound t'
Kept-IsSound t t' k v = record {
  grants = subst InOrder (sym k.grants) v.grants;
  homed =
      ap (λ l. all (λ g. is_known t'.filesystems g.fs_id) l) k.grants
      ∙ ap (λ l. all (λ g. is_known l g.fs_id) t.grants) k.filesystems
      ∙ v.homed;
  numbered = subst AllNumbered (sym k.events) v.numbered;
}

granted-IsSound :
    (fs_id actor target : Text) (role : AgentFsRole) (path_scopes : Option (List Text)) (now : ℕ)
    (stamps : ℕ → Stamp) (made created : Stamp) (t t' : Tables) (result : GrantMutationResult)
    (fs : AgentFsRecord)
    → known_filesystem fs_id t ≡ ok fs
    → fs_grant fs_id actor target role path_scopes now stamps made created t ≡ (t', ok result)
    → IsSound t
    → IsSound t'
granted-IsSound fs_id actor target role path_scopes now stamps made created t t' result fs known h
      v =
    let (_, _, effect, new, fresh) =
      fs_grant-effect fs_id actor target role path_scopes now stamps made created t t' result fs
        v.grants.distinct known h in
    let log =
      fs_grant-Logged fs_id actor target role path_scopes now stamps made created t t' result fs
        v.numbered known h in
    let without = map (revoke_if (is_target fs.fs_id target) now actor) t.grants in
    let home = known_filesystem-is_known fs_id t fs known in
    record {
      grants =
          subst (λ (s : Tables). InOrder s.grants) (sym effect)
            (replaced-InOrder fs actor target role path_scopes now result.grant t.grants new fresh
              v.grants);
      homed =
          ap (λ (s : Tables). all (λ g. is_known s.filesystems g.fs_id) s.grants) effect
          ∙ homed-insert_by t.filesystems result.grant without
          ∙ ground (
            arith,
            home,
            new.of_filesystem,
            v.homed,
            homed-revoked (is_target fs.fs_id target) now actor t.filesystems t.grants,
          );
      numbered = log.numbered;
    }

revoked-IsSound :
    (fs_id actor target : Text) (now : ℕ) (stamps : ℕ → Stamp) (t t' : Tables)
    (result : RevokeMutationResult) (fs : AgentFsRecord)
    → known_filesystem fs_id t ≡ ok fs
    → fs_revoke fs_id actor target now stamps t ≡ (t', ok result)
    → IsSound t
    → IsSound t'
revoked-IsSound fs_id actor target now stamps t t' result fs known h v =
    let (effect, _, _) =
      fs_revoke-effect fs_id actor target now stamps t t' result fs v.grants.distinct known h in
    let log = fs_revoke-Logged fs_id actor target now stamps t t' result fs v.numbered known h in
    record {
      grants =
          subst (λ (s : Tables). InOrder s.grants) (sym effect)
            (revoked-InOrder fs.fs_id target actor now t.grants v.grants);
      homed =
          ap (λ (s : Tables). all (λ g. is_known s.filesystems g.fs_id) s.grants) effect
          ∙ homed-revoked (is_target fs.fs_id target) now actor t.filesystems t.grants
          ∙ v.homed;
      numbered = log.numbered;
    }

pub fs_grant-IsSound :
    (fs_id actor target : Text) (role : AgentFsRole) (path_scopes : Option (List Text)) (now : ℕ)
    (stamps : ℕ → Stamp) (made created : Stamp) (t : Tables)
    → IsSound t
    → IsSound (fs_grant fs_id actor target role path_scopes now stamps made created t).0
unfolding fs_grant grant_body finish_transaction
fs_grant-IsSound fs_id actor target role path_scopes now stamps made created t v =
    finish_transaction-IsSound t
      (checked (check_grant target role path_scopes t)
        (grant_body fs_id actor target role path_scopes now stamps made created t))
      (λ t' result h.
        let (_, _, body) = >>=-eq-ok (check_grant target role path_scopes t) _ h in
        let (fs, known, _) = >>=-eq-ok (known_filesystem fs_id t) _ body in
        granted-IsSound fs_id actor target role path_scopes now stamps made created t t' result fs
          known (ap (finish_transaction t) h) v)
      v

pub fs_revoke-IsSound :
    (fs_id actor target : Text) (now : ℕ) (stamps : ℕ → Stamp) (t : Tables)
    → IsSound t
    → IsSound (fs_revoke fs_id actor target now stamps t).0
unfolding fs_revoke revoke_body finish_transaction
fs_revoke-IsSound fs_id actor target now stamps t v =
    finish_transaction-IsSound t
      (checked (with_error invalid_agent_id (validate_agent_id target))
        (revoke_body fs_id actor target now stamps t))
      (λ t' result h.
        let (_, _, body) = >>=-eq-ok (with_error invalid_agent_id (validate_agent_id target)) _ h in
        let (fs, known, _) = >>=-eq-ok (known_filesystem fs_id t) _ body in
        revoked-IsSound fs_id actor target now stamps t t' result fs known
          (ap (finish_transaction t) h) v)
      v
