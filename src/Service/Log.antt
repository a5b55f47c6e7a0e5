-- ===== src/Service/Log.antt =====
-- The numbers of events: `next_event_seq` numbers the events of each filesystem from 1 on, in the
-- order in which they are inserted, which `list_events` then returns.
pub mod Appends
use section.Base.{
  ℕ, ◌+◌, zero, suc, max, ◌≡◌, refl, sym, subst, ap, ◌∙◌, Bool, true, false, not, ◌&&◌, ◌||◌,
  Option, none, some, List, [], ◌∷◌, ◌++◌, any, map, filter, length, ltb, if◌then◌else◌, ◌==◌,
  ==_iff, ==_refl, nat_eq, list_eq, arith, Result, ok, err, guard, >>=-eq-ok, Bool-cases, inl, inr,
}
use mathlib.Core.List.{append-nil, append_assoc}
use section.Base.Text.{Text, codes}
use section.AgentFs.Access.{AgentFsGrantRecord}
use section.AgentFs.Records.{AgentFsEventRecord}
use section.AgentFs.NewRecords.{event_record}
use section.Service.{
  Tables, grant_denied, Stamp, insert_by, order_by, event_no_later, max_seq, insert_event,
  list_events, update_grant,
}
use section.Service.Grants.{as_revoked, revoke_loop, is_owner_role}

-- The numbers go up by one from the given one.
abbrev pub Numbered : ℕ → List AgentFsEventRecord → Type 0
Numbered n [] = Unit
Numbered n (e ∷ events) = (e.seq ≡ suc n) × Numbered (suc n) events

abbrev pub of_fs : Text → List AgentFsEventRecord → List AgentFsEventRecord
of_fs fs_id events = filter (λ e. e.fs_id == fs_id) events

-- The events of every filesystem are numbered from 1.
abbrev pub AllNumbered : List AgentFsEventRecord → Type 0
AllNumbered events = (fs_id : Text) → Numbered 0 (of_fs fs_id events)

pub of_fs-append :
    (fs_id : Text) (events more : List AgentFsEventRecord)
    → of_fs fs_id (events ++ more) ≡ of_fs fs_id events ++ of_fs fs_id more
of_fs-append fs_id [] more = refl
of_fs-append fs_id (e ∷ events) more = ground (arith, of_fs-append fs_id events more)

max_seq-Numbered :
    (fs_id : Text) (n : ℕ) (events : List AgentFsEventRecord)
    → Numbered n (of_fs fs_id events)
    → max n (max_seq fs_id events) ≡ n + length (of_fs fs_id events)
unfolding max_seq
max_seq-Numbered fs_id n [] h = omega arith
max_seq-Numbered fs_id n (e ∷ events) h = elim (Bool-cases (e.fs_id == fs_id)) [
  | inl mine ↦
      let (first, rest) : (e.seq ≡ suc n) × Numbered (suc n) (of_fs fs_id events) = rw mine at h in
      rw mine (omega (arith, first, max_seq-Numbered fs_id (suc n) events rest))
  | inr other ↦
      let rest : Numbered n (of_fs fs_id events) = rw other at h in
      rw other (max_seq-Numbered fs_id n events rest)
]

Numbered-append :
    (n : ℕ) (events : List AgentFsEventRecord) (e : AgentFsEventRecord)
    → Numbered n events
    → e.seq ≡ suc (n + length events)
    → Numbered n (events ++ e ∷ [])
Numbered-append n [] e h k = (omega (arith, k), tt)
Numbered-append n (x ∷ events) e (first, rest) k =
    (first, Numbered-append (suc n) events e rest (omega (arith, k)))

-- An inserted event is the last one of its filesystem, with the next number.
pub insert_event-numbered :
    (event numbered : AgentFsEventRecord) (t t' : Tables)
    → event.seq ≡ 0
    → AllNumbered t.events
    → insert_event event t ≡ ok (t', numbered)
    → (t'.events ≡ t.events ++ numbered ∷ [])
      × (numbered.fs_id ≡ event.fs_id)
      × (numbered.seq ≡ suc (length (of_fs event.fs_id t.events)))
unfolding insert_event
insert_event-numbered event numbered t t' unset all_numbered h =
    ground (arith, max_seq-Numbered event.fs_id 0 t.events (all_numbered event.fs_id))

pub insert_event-AllNumbered :
    (event numbered : AgentFsEventRecord) (t t' : Tables)
    → event.seq ≡ 0
    → AllNumbered t.events
    → insert_event event t ≡ ok (t', numbered)
    → AllNumbered t'.events
insert_event-AllNumbered event numbered t t' unset all_numbered h fs_id =
    let (appended, mine, seq) = insert_event-numbered event numbered t t' unset all_numbered h in
    let split = of_fs-append fs_id t.events (numbered ∷ []) in
    elim (Bool-cases (numbered.fs_id == fs_id)) [
      | inl e ↦
          let same : event.fs_id ≡ fs_id = sym mine ∙ (==_iff numbered.fs_id fs_id).0 e in
          rw (appended, split, e)
            (Numbered-append 0 (of_fs fs_id t.events) numbered (all_numbered fs_id)
              (omega (arith, seq, ap (λ i. length (of_fs i t.events)) same)))
      | inr e ↦ rw (appended, split, e) (rw append-nil (all_numbered fs_id))
    ]

-- The events of a filesystem all are, and none of another one's.
abbrev pub AllOf : Text → List AgentFsEventRecord → Type 0
AllOf fs_id [] = Unit
AllOf fs_id (e ∷ events) = (e.fs_id ≡ fs_id) × AllOf fs_id events

pub of_fs-AllOf :
    (fs_id other : Text) (events : List AgentFsEventRecord)
    → AllOf fs_id events
    → of_fs other events ≡ (if fs_id == other then events else [])
of_fs-AllOf fs_id other [] h = ground arith
of_fs-AllOf fs_id other (e ∷ events) (first, rest) =
    ground (arith, of_fs-AllOf fs_id other events rest, ==_iff e.fs_id other, ==_iff fs_id other)

-- The loop of revocations appends its events to the log of its filesystem.
pub revoke_loop-log :
    (fs_id actor : Text) (now : ℕ) (stamps : ℕ → Stamp) (grants : List AgentFsGrantRecord)
    (t t' : Tables) (revoked : List AgentFsGrantRecord) (events : List AgentFsEventRecord)
    → AllNumbered t.events
    → revoke_loop fs_id actor now stamps grants t ≡ ok (t', (revoked, events))
    → (t'.events ≡ t.events ++ events) × AllNumbered t'.events × AllOf fs_id events
unfolding revoke_loop update_grant event_record
revoke_loop-log fs_id actor now stamps [] t t' revoked events all_numbered h =
    let same : t ≡ t' = ground arith in
    let none_made : [] ≡ events = ground arith in
    (
      ground (arith, same, none_made, append-nil t.events),
      subst (λ (s : Tables). AllNumbered s.events) same all_numbered,
      subst (AllOf fs_id) none_made tt,
    )
revoke_loop-log fs_id actor now stamps (g ∷ grants) t t' revoked events all_numbered h =
    let existing = as_revoked now actor g in
    let made =
      event_record fs_id (codes "grant.revoked") actor existing.grant_id none (stamps 0).random
        (stamps 0).at in
    let (_, _, h1) = >>=-eq-ok (guard (not (is_owner_role g.role)) grant_denied) _ h in
    let ((t1, event), inserted, h2) =
      >>=-eq-ok (insert_event made (update_grant existing t)) _ h1 in
    let ((t2, (revoked', events')), looped, h3) =
      >>=-eq-ok (revoke_loop fs_id actor now (λ k. stamps (k + 1)) grants t1) _ h2 in
    let (appended, mine, _) =
      insert_event-numbered made event (update_grant existing t) t1 refl all_numbered inserted in
    let numbered1 =
      insert_event-AllNumbered made event (update_grant existing t) t1 refl all_numbered inserted in
    let (more, numbered2, all_of) =
      revoke_loop-log fs_id actor now (λ k. stamps (k + 1)) grants t1 t2 revoked' events' numbered1
        looped in
    let same : t2 ≡ t' = ground (arith, h3) in
    let made_here : event ∷ events' ≡ events = ground (arith, h3) in
    let one : AllOf fs_id (event ∷ events') = (mine, all_of) in
    let joined : t2.events ≡ t.events ++ event ∷ events' =
      more ∙ ap (λ l. l ++ events') appended ∙ append_assoc t.events (event ∷ []) events' in
    (
      ap (λ (s : Tables). s.events) (sym same) ∙ joined ∙ ap (λ l. t.events ++ l) made_here,
      subst (λ (s : Tables). AllNumbered s.events) same numbered2,
      subst (AllOf fs_id) made_here one,
    )
