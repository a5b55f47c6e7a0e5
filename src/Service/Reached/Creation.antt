-- ===== src/Service/Reached/Creation.antt =====
-- `create_filesystem` keeps the store sound: the grant of the owner is its first on the filesystem.
use section.Base.{
  ◌≡◌, refl, sym, subst, ap, ◌∙◌, Bool, true, false, not, ◌||◌, none, List, [], ◌∷◌, ◌++◌, any, all,
  ◌==◌, ==_iff, nat_eq, list_eq, arith, ok, >>=-eq-ok, guard, is_empty,
}
use section.Base.Text.{Text, codes, trim}
use section.AgentFs.Access.{owner, AgentFsRecord, AgentFsGrantRecord}
use section.AgentFs.Records.{AgentFsSourceProfileRecord}
use section.AgentFs.NewRecords.{grant_record, event_record}
use section.Service.{
  Tables, invalid_path_scope, already_exists, empty_name, backing_not_empty, mirror_failed, Stamp,
  insert_by, grant_no_later, insert_grant, insert_event,
}
use section.Service.Grants.{with_error}
use section.Service.Grants.Revocation.{insert_event-rest}
use section.Service.Grants.Replacement.{grant_record-IsNewGrant, insert_grant-rest}
use section.Service.Grants.Invariant.{InOrder, active_count, inserted-InOrder}
use section.Service.Filesystems.{
  FilesystemCreateResult, new_filesystem, insert_filesystem, create_rows, create_body,
  create_checked, create_filesystem, source_profile_by_name, ensure_source_profile_create_allowed,
}
use section.Service.Log.{AllNumbered, insert_event-AllNumbered}
use section.Service.Reached.{IsSound, is_known, homed-insert_by, finish_transaction-IsSound}

-- On a filesystem that is not there nobody has a grant.
no_grant_yet :
    (fs_id agent_id : Text) (filesystems : List AgentFsRecord) (rows : List AgentFsGrantRecord)
    → is_known filesystems fs_id ≡ false
    → all (λ g. is_known filesystems g.fs_id) rows ≡ true
    → active_count fs_id agent_id rows ≡ 0
no_grant_yet fs_id agent_id filesystems [] unknown homed = refl
no_grant_yet fs_id agent_id filesystems (x ∷ rows) unknown homed =
    let apart : (x.fs_id == fs_id) ≡ false =
      ground (arith, ==_iff x.fs_id fs_id, ap (λ i. is_known filesystems i)) in
    ground (arith, no_grant_yet fs_id agent_id filesystems rows, apart)

is_known-append :
    (filesystems : List AgentFsRecord) (fs : AgentFsRecord) (id : Text)
    → is_known (filesystems ++ fs ∷ []) id ≡ (is_known filesystems id || fs.fs_id == id)
is_known-append [] fs id = ground arith
is_known-append (x ∷ filesystems) fs id = ground (arith, is_known-append filesystems fs id)

homed-append :
    (filesystems : List AgentFsRecord) (fs : AgentFsRecord) (rows : List AgentFsGrantRecord)
    → all (λ g. is_known filesystems g.fs_id) rows ≡ true
    → all (λ g. is_known (filesystems ++ fs ∷ []) g.fs_id) rows ≡ true
homed-append filesystems fs [] h = refl
homed-append filesystems fs (x ∷ rows) h =
    ground (arith, homed-append filesystems fs rows, is_known-append filesystems fs x.fs_id)

any-or :
    (p q : AgentFsRecord → Bool) (l : List AgentFsRecord)
    → any (λ f. p f || q f) l ≡ false
    → any p l ≡ false
any-or p q [] h = refl
any-or p q (x ∷ l) h = ground (arith, any-or p q l)

insert_filesystem-rest :
    (fs : AgentFsRecord) (t t' : Tables)
    → insert_filesystem fs t ≡ ok t'
    → (t' ≡ record t { filesystems = t.filesystems ++ fs ∷ [] })
      × (is_known t.filesystems fs.fs_id ≡ false)
unfolding insert_filesystem
insert_filesystem-rest fs t t' h =
    ground (arith, any-or (λ f. f.fs_id == fs.fs_id) (λ f. f.name == fs.name) t.filesystems)

create_rows-IsSound :
    (fs : AgentFsRecord) (owner_id : Text) (profile : AgentFsSourceProfileRecord) (mirrored : Bool)
    (granted created : Stamp) (t t' : Tables) (result : FilesystemCreateResult)
    → create_rows fs owner_id profile mirrored granted created t ≡ ok (t', result)
    → IsSound t
    → IsSound t'
unfolding create_rows event_record
create_rows-IsSound fs owner_id profile mirrored granted created t t' result h v =
    let (t1, inserted, h2) = >>=-eq-ok (insert_filesystem fs t) _ h in
    let (grant, new, h3) =
      >>=-eq-ok
        (with_error invalid_path_scope
          (grant_record fs owner_id owner owner_id none granted.random granted.at))
        _ h2 in
    let (t2, granted', h4) = >>=-eq-ok (insert_grant grant t1) _ h3 in
    let event =
      event_record fs.fs_id (codes "fs.created") owner_id fs.fs_id none created.random created.at in
    let ((t3, numbered), logged, h5) = >>=-eq-ok (insert_event event t2) _ h4 in
    let (_, _, h6) = >>=-eq-ok (guard mirrored mirror_failed) _ h5 in
    let (with_fs, unknown) = insert_filesystem-rest fs t t1 inserted in
    let (with_grant, fresh) = insert_grant-rest grant t1 t2 granted' in
    let with_event = insert_event-rest event numbered t2 t3 logged in
    let fields =
      grant_record-IsNewGrant fs owner_id owner owner_id none granted.random granted.at grant new in
    let same_grants : t1.grants ≡ t.grants = ap (λ (s : Tables). s.grants) with_fs in
    let same_events : t2.events ≡ t.events =
      ap (λ (s : Tables). s.events) with_grant ∙ ap (λ (s : Tables). s.events) with_fs in
    let final : t3 ≡ t' = ground (arith, h6) in
    let all_grants : t'.grants ≡ insert_by grant_no_later grant t.grants =
      ap (λ (s : Tables). s.grants) (sym final ∙ with_event)
      ∙ ap (λ (s : Tables). s.grants) with_grant
      ∙ ap (insert_by grant_no_later grant) same_grants in
    let all_filesystems : t'.filesystems ≡ t.filesystems ++ fs ∷ [] =
      ap (λ (s : Tables). s.filesystems) (sym final ∙ with_event)
      ∙ ap (λ (s : Tables). s.filesystems) with_grant
      ∙ ap (λ (s : Tables). s.filesystems) with_fs in
    record {
      grants = subst InOrder (sym all_grants) (
          inserted-InOrder fs owner_id owner none grant t.grants fields
            (ap (λ l. any (λ g. g.grant_id == grant.grant_id) l) (sym same_grants) ∙ fresh)
            (no_grant_yet fs.fs_id owner_id t.filesystems t.grants unknown v.homed) v.grants);
      homed =
          ap (λ l. all (λ g. is_known l g.fs_id) t'.grants) all_filesystems
          ∙ ap (λ l. all (λ g. is_known (t.filesystems ++ fs ∷ []) g.fs_id) l) all_grants
          ∙ homed-insert_by (t.filesystems ++ fs ∷ []) grant t.grants
          ∙ ground (
            arith,
            homed-append t.filesystems fs t.grants v.homed,
            fields.of_filesystem,
            is_known-append t.filesystems fs grant.fs_id,
            ==_iff fs.fs_id grant.fs_id,
          );
      numbered =
          subst (λ (s : Tables). AllNumbered s.events) final
            (insert_event-AllNumbered event numbered t2 t3 refl
              (subst AllNumbered (sym same_events) v.numbered) logged);
    }

pub create_filesystem-IsSound :
    (enforce : Bool) (raw_name profile_name owner_id owner_name : Text) (empty mirrored : Bool)
    (stamp granted created : Stamp) (t : Tables)
    → IsSound t
    → IsSound
        (create_filesystem enforce raw_name profile_name owner_id owner_name empty mirrored stamp
          granted created t).0
unfolding create_filesystem create_checked create_body
create_filesystem-IsSound enforce raw_name profile_name owner_id owner_name empty mirrored stamp
      granted created t v =
    let name = trim raw_name in
    finish_transaction-IsSound t
      (create_checked enforce name profile_name owner_id owner_name empty mirrored stamp granted
        created t)
      (λ t' result h.
        let (_, _, h1) = >>=-eq-ok (guard (not (is_empty name)) empty_name) _ h in
        let ((profile, source), _, h2) = >>=-eq-ok (source_profile_by_name profile_name t) _ h1 in
        let (_, _, h3) =
          >>=-eq-ok (ensure_source_profile_create_allowed enforce source owner_id owner_name) _
            h2 in
        let (_, _, h4) = >>=-eq-ok (guard empty backing_not_empty) _ h3 in
        let (_, _, h5) =
          >>=-eq-ok (guard (not (any (λ f. f.name == name) t.filesystems)) already_exists) _ h4 in
        create_rows-IsSound (new_filesystem name owner_id profile stamp) owner_id profile mirrored
          granted created t t' result h5 v)
      v
