-- ===== src/Service/Grants/Invariant.antt =====
-- The table of grants stays in order: no two rows have one `grant_id`, an agent has at most one active
-- grant on a filesystem, and the capabilities of a row are those of its role.
use section.Base.{
  Bool-cases, inl, inr, ℕ, ◌+◌, ◌≤◌, ◌≡◌, refl, sym, ap, ◌∙◌, Bool, true, false, ◌&&◌, Option, List,
  [], ◌∷◌, any, all, map, filter, length, if◌then◌else◌, ◌==◌, ==_iff, ==_refl, nat_eq, list_eq,
  arith,
}
use section.Base.Text.{Text}
use section.AgentFs.Access.{
  capability_eq, capabilities, AgentFsRole, AgentFsRecord, AgentFsGrantRecord,
}
use section.Service.{insert_by, grant_no_later}
use section.Service.Grants.{as_revoked, is_target}
use section.Service.Grants.Revocation.{Distinct, revoke_if}
use section.Service.Grants.Replacement.{IsNewGrant, replaced}
use section.Service.Grants.Rights.{any-insert_by}

abbrev pub active_count : Text → Text → List AgentFsGrantRecord → ℕ
active_count fs_id agent_id grants = length (filter (is_target fs_id agent_id) grants)

abbrev pub by_role : AgentFsGrantRecord → Bool
by_role grant = grant.capabilities == capabilities grant.role

pub record InOrder (grants : List AgentFsGrantRecord) : Type 0 where
  pub distinct : Distinct grants
  pub single : (fs_id agent_id : Text) → active_count fs_id agent_id grants ≤ 1
  pub roles : all by_role grants ≡ true

ids-revoked :
    (p : AgentFsGrantRecord → Bool) (now : ℕ) (by id : Text) (rows : List AgentFsGrantRecord)
    → any (λ h. h.grant_id == id) (map (revoke_if p now by) rows) ≡ any (λ h. h.grant_id == id) rows
unfolding as_revoked
ids-revoked p now by id [] = refl
ids-revoked p now by id (x ∷ rows) = ground (arith, ids-revoked p now by id rows)

Distinct-revoked :
    (p : AgentFsGrantRecord → Bool) (now : ℕ) (by : Text) (rows : List AgentFsGrantRecord)
    → Distinct rows
    → Distinct (map (revoke_if p now by) rows)
unfolding as_revoked
Distinct-revoked p now by [] d = tt
Distinct-revoked p now by (x ∷ rows) (apart, d) =
    (ground (arith, ids-revoked p now by x.grant_id rows, apart), Distinct-revoked p now by rows d)

Distinct-insert_by :
    (x : AgentFsGrantRecord) (rows : List AgentFsGrantRecord)
    → any (λ h. h.grant_id == x.grant_id) rows ≡ false
    → Distinct rows
    → Distinct (insert_by grant_no_later x rows)
unfolding insert_by
Distinct-insert_by x [] absent d = (refl, tt)
Distinct-insert_by x (y ∷ rows) absent (apart, d) = elim (Bool-cases (grant_no_later x y)) [
  | inl first ↦ rw first (absent, (apart, d))
  | inr later ↦ rw later (
    ground (
      arith,
      any-insert_by grant_no_later (λ h. h.grant_id == y.grant_id) x rows,
      apart,
      absent,
      ==_iff x.grant_id y.grant_id,
      ==_iff y.grant_id x.grant_id,
    ),
    Distinct-insert_by x rows (ground (arith, absent)) d,
  )
]

count-revoked :
    (fs_id target f_id agent_id by : Text) (now : ℕ) (rows : List AgentFsGrantRecord)
    → active_count f_id agent_id (map (revoke_if (is_target fs_id target) now by) rows)
      ≡ (if f_id == fs_id && agent_id == target then 0 else active_count f_id agent_id rows)
unfolding as_revoked
count-revoked fs_id target f_id agent_id by now [] = ground arith
count-revoked fs_id target f_id agent_id by now (x ∷ rows) = ground (
  arith,
  count-revoked fs_id target f_id agent_id by now rows,
  ==_iff x.fs_id fs_id,
  ==_iff x.fs_id f_id,
  ==_iff x.agent_id target,
  ==_iff x.agent_id agent_id,
  ==_iff f_id fs_id,
  ==_iff agent_id target,
)

pub count-insert_by :
    (f_id agent_id : Text) (x : AgentFsGrantRecord) (rows : List AgentFsGrantRecord)
    → active_count f_id agent_id (insert_by grant_no_later x rows)
      ≡ (if is_target f_id agent_id x then 1 else 0) + active_count f_id agent_id rows
unfolding insert_by
count-insert_by f_id agent_id x [] = ground arith
count-insert_by f_id agent_id x (y ∷ rows) = ground (arith, count-insert_by f_id agent_id x rows)

all-revoked :
    (p : AgentFsGrantRecord → Bool) (now : ℕ) (by : Text) (rows : List AgentFsGrantRecord)
    → all by_role (map (revoke_if p now by) rows) ≡ all by_role rows
unfolding as_revoked
all-revoked p now by [] = refl
all-revoked p now by (x ∷ rows) = ground (arith, all-revoked p now by rows)

all-insert_by :
    (p : AgentFsGrantRecord → Bool) (x : AgentFsGrantRecord) (rows : List AgentFsGrantRecord)
    → all p (insert_by grant_no_later x rows) ≡ (p x && all p rows)
unfolding insert_by
all-insert_by p x [] = refl
all-insert_by p x (y ∷ rows) = ground (arith, all-insert_by p x rows)

pub revoked-InOrder :
    (fs_id target by : Text) (now : ℕ) (rows : List AgentFsGrantRecord)
    → InOrder rows
    → InOrder (map (revoke_if (is_target fs_id target) now by) rows)
revoked-InOrder fs_id target by now rows v = record {
  distinct = Distinct-revoked (is_target fs_id target) now by rows v.distinct;
  single = λ f a. ground (arith, count-revoked fs_id target f a by now rows, v.single f a);
  roles = all-revoked (is_target fs_id target) now by rows ∙ v.roles;
}

-- A new row may come in where the agent has no active grant on the filesystem.
pub inserted-InOrder :
    (fs : AgentFsRecord) (agent_id : Text) (role : AgentFsRole) (path_scopes : Option (List Text))
    (grant : AgentFsGrantRecord) (rows : List AgentFsGrantRecord)
    → IsNewGrant fs agent_id role path_scopes grant
    → any (λ g. g.grant_id == grant.grant_id) rows ≡ false
    → active_count fs.fs_id agent_id rows ≡ 0
    → InOrder rows
    → InOrder (insert_by grant_no_later grant rows)
inserted-InOrder fs agent_id role path_scopes grant rows new fresh free v = record {
  distinct = Distinct-insert_by grant rows fresh v.distinct;
  single = λ f a. ground (
    arith,
    count-insert_by f a grant rows,
    v.single f a,
    new.of_filesystem,
    new.of_agent,
    free,
    ==_iff grant.fs_id f,
    ==_iff grant.agent_id a,
  );
  roles =
      let own : by_role grant ≡ true =
        (==_iff grant.capabilities (capabilities grant.role)).1
          (new.of_capabilities ∙ ap capabilities (sym new.of_role)) in
      all-insert_by by_role grant rows ∙ ground (arith, own, v.roles);
}

-- A replacement keeps the table in order.
pub replaced-InOrder :
    (fs : AgentFsRecord) (actor target : Text) (role : AgentFsRole)
    (path_scopes : Option (List Text)) (now : ℕ) (grant : AgentFsGrantRecord)
    (rows : List AgentFsGrantRecord)
    → IsNewGrant fs target role path_scopes grant
    → any
        (λ g. g.grant_id == grant.grant_id)
        (map (revoke_if (is_target fs.fs_id target) now actor) rows)
      ≡ false
    → InOrder rows
    → InOrder (replaced fs actor target now grant rows)
replaced-InOrder fs actor target role path_scopes now grant rows new fresh v =
    inserted-InOrder fs target role path_scopes grant
      (map (revoke_if (is_target fs.fs_id target) now actor) rows) new fresh
      (ground (
        arith,
        count-revoked fs.fs_id target fs.fs_id target actor now rows,
        ==_refl fs.fs_id,
        ==_refl target,
      ))
      (revoked-InOrder fs.fs_id target actor now rows v)

-- Deleted rows.
any-filter :
    (p q : AgentFsGrantRecord → Bool) (rows : List AgentFsGrantRecord)
    → any p rows ≡ false
    → any p (filter q rows) ≡ false
any-filter p q [] h = refl
any-filter p q (x ∷ rows) h = ground (arith, any-filter p q rows)

Distinct-filter :
    (q : AgentFsGrantRecord → Bool) (rows : List AgentFsGrantRecord)
    → Distinct rows
    → Distinct (filter q rows)
Distinct-filter q [] d = tt
Distinct-filter q (x ∷ rows) (apart, d) = elim (Bool-cases (q x)) [
  | inl e ↦ rw e (any-filter (λ h. h.grant_id == x.grant_id) q rows apart, Distinct-filter q rows d)
  | inr e ↦ rw e (Distinct-filter q rows d)
]

count-filter :
    (q p : AgentFsGrantRecord → Bool) (rows : List AgentFsGrantRecord)
    → length (filter p (filter q rows)) ≤ length (filter p rows)
count-filter q p [] = omega arith
count-filter q p (x ∷ rows) = ground (arith, count-filter q p rows)

all-filter :
    (p q : AgentFsGrantRecord → Bool) (rows : List AgentFsGrantRecord)
    → all p rows ≡ true
    → all p (filter q rows) ≡ true
all-filter p q [] h = refl
all-filter p q (x ∷ rows) h = ground (arith, all-filter p q rows)

pub filtered-InOrder :
    (q : AgentFsGrantRecord → Bool) (rows : List AgentFsGrantRecord)
    → InOrder rows
    → InOrder (filter q rows)
filtered-InOrder q rows v = record {
  distinct = Distinct-filter q rows v.distinct;
  single = λ f a. omega (arith, count-filter q (is_target f a) rows, v.single f a);
  roles = all-filter by_role q rows v.roles;
}
