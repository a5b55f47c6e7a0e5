-- ===== src/Service/Grants/Revocation.antt =====
-- What the loop over the active grants of an agent does to the table: it revokes exactly these rows.
use section.Base.{
  ℕ, ◌+◌, ◌≡◌, refl, ap, ◌∙◌, Bool, false, not, ◌&&◌, none, List, [], ◌∷◌, ◌++◌, any, filter, map,
  if◌then◌else◌, ◌==◌, ==_refl, ==_iff, nat_eq, list_eq, arith, ok, guard, >>=-eq-ok, Bool-cases,
  inl, inr,
}
use section.Base.Text.{Text, codes}
use section.AgentFs.Access.{AgentFsGrantRecord, is_active, list_grants}
use section.AgentFs.Records.{AgentFsEventRecord}
use section.AgentFs.NewRecords.{event_record}
use section.Service.{grant_denied, Tables, Stamp, set_grant, update_grant, insert_event}
use section.Service.Grants.{as_revoked, revoke_loop, is_target, active_grants, is_owner_role}

-- No two rows have the same `grant_id`.
abbrev pub Distinct : List AgentFsGrantRecord → Type 0
Distinct [] = Unit
Distinct (g ∷ grants) = (any (λ h. h.grant_id == g.grant_id) grants ≡ false) × Distinct grants

-- The updates of the loop, on the rows alone.
updates : ℕ → Text → List AgentFsGrantRecord → List AgentFsGrantRecord → List AgentFsGrantRecord
updates now by [] rows = rows
updates now by (g ∷ grants) rows =
    updates now by grants (map (set_grant (as_revoked now by g)) rows)

abbrev pub revoke_if :
    (AgentFsGrantRecord → Bool) → ℕ → Text → AgentFsGrantRecord → AgentFsGrantRecord
revoke_if p now by g = if p g then as_revoked now by g else g

set_absent :
    (g : AgentFsGrantRecord) (rows : List AgentFsGrantRecord)
    → any (λ h. h.grant_id == g.grant_id) rows ≡ false
    → map (set_grant g) rows ≡ rows
unfolding set_grant
set_absent g [] h = refl
set_absent g (x ∷ rows) h = ground (arith, set_absent g rows)

any-filter :
    (p q : AgentFsGrantRecord → Bool) (rows : List AgentFsGrantRecord)
    → any p rows ≡ false
    → any p (filter q rows) ≡ false
any-filter p q [] h = refl
any-filter p q (x ∷ rows) h = ground (arith, any-filter p q rows)

-- A row that no update is about stays at the head.
updates-head :
    (now : ℕ) (by : Text) (x : AgentFsGrantRecord) (grants rows : List AgentFsGrantRecord)
    → any (λ h. h.grant_id == x.grant_id) grants ≡ false
    → updates now by grants (x ∷ rows) ≡ x ∷ updates now by grants rows
unfolding updates set_grant as_revoked
updates-head now by x [] rows h = refl
updates-head now by x (g ∷ grants) rows h =
    let other : (x.grant_id == g.grant_id) ≡ false =
      ground (arith, ==_iff x.grant_id g.grant_id, ==_iff g.grant_id x.grant_id) in
    rw other
      (updates-head now by x grants (map (set_grant (as_revoked now by g)) rows) (ground arith))

set_head :
    (now : ℕ) (by : Text) (x : AgentFsGrantRecord) (rows : List AgentFsGrantRecord)
    → any (λ h. h.grant_id == x.grant_id) rows ≡ false
    → map (set_grant (as_revoked now by x)) (x ∷ rows) ≡ as_revoked now by x ∷ rows
unfolding set_grant as_revoked
set_head now by x rows h = ground (arith, ==_refl x.grant_id, set_absent (as_revoked now by x) rows)

updates-filter :
    (now : ℕ) (by : Text) (p : AgentFsGrantRecord → Bool) (rows : List AgentFsGrantRecord)
    → Distinct rows
    → updates now by (filter p rows) rows ≡ map (revoke_if p now by) rows
unfolding updates as_revoked
updates-filter now by p [] d = refl
updates-filter now by p (x ∷ rows) (apart, d) = elim (Bool-cases (p x)) [
  | inl e ↦
      let rest = updates-filter now by p rows d in
      let head =
        updates-head now by (as_revoked now by x) (filter p rows) rows
          (any-filter (λ h. h.grant_id == x.grant_id) p rows apart) in
      rw e (
        ap (updates now by (filter p rows)) (set_head now by x rows apart)
        ∙ head
        ∙ ap (λ l. as_revoked now by x ∷ l) rest)
  | inr e ↦
      let head =
        updates-head now by x (filter p rows) rows
          (any-filter (λ h. h.grant_id == x.grant_id) p rows apart) in
      rw e (head ∙ ap (λ l. x ∷ l) (updates-filter now by p rows d))
]

-- An inserted event changes the table of events alone.
pub insert_event-rest :
    (event numbered : AgentFsEventRecord) (t t' : Tables)
    → insert_event event t ≡ ok (t', numbered)
    → t' ≡ record t { events = t.events ++ numbered ∷ [] }
unfolding insert_event
insert_event-rest event numbered t t' h = ground arith

-- What is left of a successful loop: the grants are updated, and besides them only the events changed.
revoke_loop-effect :
    (fs_id actor : Text) (now : ℕ) (stamps : ℕ → Stamp) (grants : List AgentFsGrantRecord)
    (t t' : Tables) (revoked : List AgentFsGrantRecord) (events : List AgentFsEventRecord)
    → revoke_loop fs_id actor now stamps grants t ≡ ok (t', (revoked, events))
    → (t' ≡ record t { grants = updates now actor grants t.grants; events = t'.events })
      × (revoked ≡ map (as_revoked now actor) grants)
unfolding revoke_loop updates
revoke_loop-effect fs_id actor now stamps [] t t' revoked events h = ground arith
revoke_loop-effect fs_id actor now stamps (g ∷ grants) t t' revoked events h =
    let existing = as_revoked now actor g in
    let made =
      event_record fs_id (codes "grant.revoked") actor existing.grant_id none (stamps 0).random
        (stamps 0).at in
    let (_, _, h1) = >>=-eq-ok (guard (not (is_owner_role g.role)) grant_denied) _ h in
    let ((t1, event), inserted, h2) =
      >>=-eq-ok (insert_event made (update_grant existing t)) _ h1 in
    let ((t2, (revoked', events')), looped, h3) =
      >>=-eq-ok (revoke_loop fs_id actor now (λ k. stamps (k + 1)) grants t1) _ h2 in
    let rest =
      revoke_loop-effect fs_id actor now (λ k. stamps (k + 1)) grants t1 t2 revoked' events'
        looped in
    let first = insert_event-rest made event (update_grant existing t) t1 inserted in
    ground (arith, rest, first, h3)

active_grants-filter :
    (fs_id target : Text) (rows : List AgentFsGrantRecord)
    → filter (λ g. g.agent_id == target && is_active g) (list_grants rows fs_id)
      ≡ filter (is_target fs_id target) rows
unfolding list_grants
active_grants-filter fs_id target [] = refl
active_grants-filter fs_id target (x ∷ rows) =
    ground (arith, active_grants-filter fs_id target rows)

-- The loop over the active grants of an agent revokes exactly these, and changes no other table but
-- the events.
pub revoke_loop-revokes :
    (fs_id actor target : Text) (now : ℕ) (stamps : ℕ → Stamp) (t t' : Tables)
    (revoked : List AgentFsGrantRecord) (events : List AgentFsEventRecord)
    → Distinct t.grants
    → revoke_loop fs_id actor now stamps (active_grants fs_id target t) t
      ≡ ok (t', (revoked, events))
    → t' ≡ record t {
      grants = map (revoke_if (is_target fs_id target) now actor) t.grants;
      events = t'.events;
    }
unfolding active_grants
revoke_loop-revokes fs_id actor target now stamps t t' revoked events distinct h =
    let same = active_grants-filter fs_id target t.grants in
    let (effect, _) =
      revoke_loop-effect fs_id actor now stamps (filter (is_target fs_id target) t.grants) t t'
        revoked events (rw same at h) in
    let all_updated = updates-filter now actor (is_target fs_id target) t.grants distinct in
    effect ∙ rw all_updated refl
