-- ===== src/Service/Log/Appends.antt =====
-- `fs_grant` and `fs_revoke` append their events to the log of the filesystem, and to no other.
use mathlib.Core.List.{append_assoc}
use section.Base.{
  ℕ, ◌≡◌, refl, sym, subst, ap, ◌∙◌, none, Option, List, [], ◌∷◌, ◌++◌, if◌then◌else◌, ◌==◌, nat_eq,
  list_eq, arith, ok, >>=-eq-ok, suc,
}
use section.Base.Text.{Text, codes}
use section.AgentFs.Access.{AgentFsRole, AgentFsRecord}
use section.AgentFs.Metadata.{validate_agent_id}
use section.AgentFs.Records.{AgentFsEventRecord}
use section.AgentFs.NewRecords.{grant_record, event_record}
use section.Service.{
  Tables, invalid_agent_id, invalid_path_scope, Stamp, insert_by, order_by, event_no_later,
  insert_grant, insert_event, list_events, known_filesystem,
}
use section.Service.Grants.{
  GrantMutationResult, RevokeMutationResult, active_grants, revoke_loop, with_error, replace_grant,
  check_grant, fs_grant, revoke_all, fs_revoke,
}
use section.Service.Grants.Rights.{finish_transaction-ok, revoke_body-ok}
use section.Service.Grants.Replacement.{insert_grant-rest, grant_body-ok}
use section.Service.Log.{
  Numbered, AllNumbered, AllOf, of_fs, of_fs-append, of_fs-AllOf, insert_event-numbered,
  insert_event-AllNumbered, revoke_loop-log,
}

order_by-Numbered :
    (n : ℕ) (events : List AgentFsEventRecord)
    → Numbered n events
    → order_by event_no_later events ≡ events
unfolding order_by insert_by
order_by-Numbered n [] h = refl
order_by-Numbered n (e ∷ []) h = refl
order_by-Numbered n (e ∷ f ∷ events) (first, (second, rest)) =
    ground (arith, order_by-Numbered (suc n) (f ∷ events) (second, rest), first, second)

-- In a numbered table the query returns the events of the filesystem as they were inserted.
pub list_events-of_fs :
    (fs_id : Text) (t : Tables) → AllNumbered t.events → list_events fs_id t ≡ of_fs fs_id t.events
unfolding list_events
list_events-of_fs fs_id t all_numbered =
    order_by-Numbered 0 (of_fs fs_id t.events) (all_numbered fs_id)

-- The table of events after an operation on a filesystem that made `made`.
pub record Logged (fs_id : Text) (t t' : Tables) (made : List AgentFsEventRecord) : Type 0 where
  pub appended : t'.events ≡ t.events ++ made
  pub numbered : AllNumbered t'.events
  pub of_one : AllOf fs_id made

pub list_events-Logged :
    (fs_id other : Text) (t t' : Tables) (made : List AgentFsEventRecord)
    → AllNumbered t.events
    → Logged fs_id t t' made
    → list_events other t' ≡ list_events other t ++ (if fs_id == other then made else [])
list_events-Logged fs_id other t t' made all_numbered log =
    list_events-of_fs other t' log.numbered
    ∙ ap (of_fs other) log.appended
    ∙ of_fs-append other t.events made
    ∙ ap (λ l. of_fs other t.events ++ l) (of_fs-AllOf fs_id other made log.of_one)
    ∙ ap (λ l. l ++ (if fs_id == other then made else []))
        (sym (list_events-of_fs other t all_numbered))

AllOf-append :
    (fs_id : Text) (events : List AgentFsEventRecord) (e : AgentFsEventRecord)
    → AllOf fs_id events
    → e.fs_id ≡ fs_id
    → AllOf fs_id (events ++ e ∷ [])
AllOf-append fs_id [] e h k = (k, tt)
AllOf-append fs_id (x ∷ events) e (first, rest) k = (first, AllOf-append fs_id events e rest k)

replace_grant-Logged :
    (fs : AgentFsRecord) (actor target : Text) (role : AgentFsRole)
    (path_scopes : Option (List Text)) (now : ℕ) (stamps : ℕ → Stamp) (made created : Stamp)
    (t t' : Tables) (result : GrantMutationResult)
    → AllNumbered t.events
    → replace_grant fs actor target role path_scopes now stamps made created t ≡ ok (t', result)
    → Logged fs.fs_id t t' result.events
unfolding replace_grant event_record
replace_grant-Logged fs actor target role path_scopes now stamps made created t t' result
      all_numbered h =
    let loop = revoke_loop fs.fs_id actor now stamps (active_grants fs.fs_id target t) t in
    let ((t1, (revoked, events)), looped, h1) = >>=-eq-ok loop _ h in
    let (grant, new, h2) =
      >>=-eq-ok
        (with_error invalid_path_scope
          (grant_record fs target role actor path_scopes made.random made.at))
        _ h1 in
    let (t2, inserted, h3) = >>=-eq-ok (insert_grant grant t1) _ h2 in
    let event =
      event_record fs.fs_id (codes "grant.created") actor grant.grant_id none created.random
        created.at in
    let ((t3, numbered), logged, h4) = >>=-eq-ok (insert_event event t2) _ h3 in
    let (more, numbered1, all_of) =
      revoke_loop-log fs.fs_id actor now stamps (active_grants fs.fs_id target t) t t1 revoked
        events all_numbered looped in
    let (with_grant, _) = insert_grant-rest grant t1 t2 inserted in
    let kept : t2.events ≡ t1.events = ap (λ (s : Tables). s.events) with_grant in
    let numbered2 : AllNumbered t2.events = rw kept numbered1 in
    let (last, mine, _) = insert_event-numbered event numbered t2 t3 refl numbered2 logged in
    let numbered3 = insert_event-AllNumbered event numbered t2 t3 refl numbered2 logged in
    let same : t3 ≡ t' = ground (arith, h4) in
    let made_here : events ++ numbered ∷ [] ≡ result.events = ground (arith, h4) in
    let joined : t3.events ≡ t.events ++ (events ++ numbered ∷ []) =
      last
      ∙ ap (λ l. l ++ numbered ∷ []) (kept ∙ more)
      ∙ append_assoc t.events events (numbered ∷ []) in
    record {
      appended =
          ap (λ (s : Tables). s.events) (sym same) ∙ joined ∙ ap (λ l. t.events ++ l) made_here;
      numbered = subst (λ (s : Tables). AllNumbered s.events) same numbered3;
      of_one = subst (AllOf fs.fs_id) made_here (AllOf-append fs.fs_id events numbered all_of mine);
    }

pub fs_grant-Logged :
    (fs_id actor target : Text) (role : AgentFsRole) (path_scopes : Option (List Text)) (now : ℕ)
    (stamps : ℕ → Stamp) (made created : Stamp) (t t' : Tables) (result : GrantMutationResult)
    (fs : AgentFsRecord)
    → AllNumbered t.events
    → known_filesystem fs_id t ≡ ok fs
    → fs_grant fs_id actor target role path_scopes now stamps made created t ≡ (t', ok result)
    → Logged fs.fs_id t t' result.events
unfolding fs_grant
fs_grant-Logged fs_id actor target role path_scopes now stamps made created t t' result fs
      all_numbered known h =
    let (_, _, body) =
      >>=-eq-ok (check_grant target role path_scopes t) _ (finish_transaction-ok t t' _ result h) in
    let (_, _, replacing) =
      grant_body-ok fs_id actor target role path_scopes now stamps made created t t' result fs known
        body in
    replace_grant-Logged fs actor target role path_scopes now stamps made created t t' result
      all_numbered replacing

revoke_all-Logged :
    (fs : AgentFsRecord) (actor target : Text) (now : ℕ) (stamps : ℕ → Stamp) (t t' : Tables)
    (result : RevokeMutationResult)
    → AllNumbered t.events
    → revoke_all fs actor target now stamps t ≡ ok (t', result)
    → Logged fs.fs_id t t' result.events
unfolding revoke_all
revoke_all-Logged fs actor target now stamps t t' result all_numbered h =
    let loop = revoke_loop fs.fs_id actor now stamps (active_grants fs.fs_id target t) t in
    let ((t1, (revoked, events)), looped, h1) = >>=-eq-ok loop _ h in
    let (more, numbered1, all_of) =
      revoke_loop-log fs.fs_id actor now stamps (active_grants fs.fs_id target t) t t1 revoked
        events all_numbered looped in
    let same : t1 ≡ t' = ground (arith, h1) in
    let made_here : events ≡ result.events = ground (arith, h1) in
    record {
      appended =
          ap (λ (s : Tables). s.events) (sym same) ∙ more ∙ ap (λ l. t.events ++ l) made_here;
      numbered = subst (λ (s : Tables). AllNumbered s.events) same numbered1;
      of_one = subst (AllOf fs.fs_id) made_here all_of;
    }

pub fs_revoke-Logged :
    (fs_id actor target : Text) (now : ℕ) (stamps : ℕ → Stamp) (t t' : Tables)
    (result : RevokeMutationResult) (fs : AgentFsRecord)
    → AllNumbered t.events
    → known_filesystem fs_id t ≡ ok fs
    → fs_revoke fs_id actor target now stamps t ≡ (t', ok result)
    → Logged fs.fs_id t t' result.events
unfolding fs_revoke
fs_revoke-Logged fs_id actor target now stamps t t' result fs all_numbered known h =
    let (_, _, body) =
      >>=-eq-ok (with_error invalid_agent_id (validate_agent_id target)) _
        (finish_transaction-ok t t' _ result h) in
    let (_, _, revoking) = revoke_body-ok fs_id actor target now stamps t t' result fs known body in
    revoke_all-Logged fs actor target now stamps t t' result all_numbered revoking

-- In a store whose events are numbered, a successful `fs_grant` appends the events that it returns to
-- the list of its filesystem, and leaves the lists of all other filesystems as they were. The events
-- of each filesystem are still numbered from 1 on.
pub fs_grant-log :
    (fs_id actor target : Text) (role : AgentFsRole) (path_scopes : Option (List Text)) (now : ℕ)
    (stamps : ℕ → Stamp) (made created : Stamp) (t t' : Tables) (result : GrantMutationResult)
    (fs : AgentFsRecord) (other : Text)
    → AllNumbered t.events
    → known_filesystem fs_id t ≡ ok fs
    → fs_grant fs_id actor target role path_scopes now stamps made created t ≡ (t', ok result)
    → (list_events other t'
        ≡ list_events other t ++ (if fs.fs_id == other then result.events else []))
      × Numbered 0 (list_events other t')
fs_grant-log fs_id actor target role path_scopes now stamps made created t t' result fs other
      all_numbered known h =
    let log =
      fs_grant-Logged fs_id actor target role path_scopes now stamps made created t t' result fs
        all_numbered known h in
    (
      list_events-Logged fs.fs_id other t t' result.events all_numbered log,
      rw (list_events-of_fs other t' log.numbered) (log.numbered other),
    )
