-- ===== src/AgentFs/Metadata/Commits.antt =====
-- What a commit record that is accepted promises.
use section.Base.{
  ◌≡◌, refl, Bool, true, false, not, ◌&&◌, Option, none, some, List, [], ◌∷◌, all, is_empty, ok,
  ◌>>◌, >>=-eq-ok, guard, is_ok, arith, contains, String,
}
use section.Base.Text.{Text, codes, trim}
use section.AgentFs.Access.{
  AgentFsAuthorization, by_owner, by_grant, commit, role_has_capability, capability_eq,
}
use section.AgentFs.SourcePath.{validate_source_relative_path}
use section.AgentFs.Records.{AgentFsCommitRecord, AgentFsCommitPathRecord}
use section.AgentFs.Metadata.{
  MetadataError, malformed_record, Checked, each, optional, validate_agentfs_path_field,
  validate_authorization, validate_schema, validate_id_field, validate_non_empty,
}
use section.AgentFs.Metadata.Checks.{validate_commit, validate_commit_path, require}

-- The agent was the owner, or its grant and the role of the grant could commit.
abbrev pub may_commit : AgentFsAuthorization → Bool
may_commit (by_owner agent_id) = true
may_commit (by_grant id role granted scopes matched) =
    contains granted commit && role_has_capability role commit

both : (m : Checked) (k : Checked) → (m >> k) ≡ ok tt → (m ≡ ok tt) × (k ≡ ok tt)
both m k h = let (u, first, rest) = >>=-eq-ok m (λ _. k) h in (first, rest)

guarded : (b : Bool) (e : MetadataError) → guard b e ≡ ok tt → b ≡ true
guarded b e h = ground arith

path_valid :
    (p : AgentFsCommitPathRecord)
    → validate_commit_path p ≡ ok tt
    → is_ok (validate_source_relative_path p.path) ≡ true
unfolding validate_commit_path validate_agentfs_path_field
path_valid p h =
    let check = is_ok (validate_source_relative_path p.path) in
    let e = malformed_record "paths.path" in guarded check e (both (guard check e) _ h).0

paths_valid :
    (ps : List AgentFsCommitPathRecord)
    → each validate_commit_path ps ≡ ok tt
    → all (λ p. is_ok (validate_source_relative_path p.path)) ps ≡ true
paths_valid [] h = refl
paths_valid (p ∷ ps) h =
    let (first, rest) = both (validate_commit_path p) (each validate_commit_path ps) h in
    let one = path_valid p first in let more = paths_valid ps rest in rw (one, more) refl

authorized : (a : AgentFsAuthorization) → validate_authorization a ≡ ok tt → may_commit a ≡ true
unfolding validate_authorization
authorized (by_owner agent_id) h = refl
authorized (by_grant id role granted scopes matched) h =
    let (first, rest) =
      both (validate_id_field "authorized_by.grant_id" id (codes "grt_") 32) _ h in
    let (has, role_has) =
      both (guard (contains granted commit) (malformed_record "authorized_by.capabilities")) _
        rest in
    let one =
      guarded (contains granted commit) (malformed_record "authorized_by.capabilities") has in
    let two =
      guarded (role_has_capability role commit) (malformed_record "authorized_by.role") role_has in
    rw (one, two) refl

found {ℓ} :
    {A : Type ℓ} (field : String) (o : Option A) {a : A} → require field o ≡ ok a → o ≡ some a
found field none h = absurd cc
found field (some a) h = ground arith

-- A commit record is accepted only if it names at least one path, all its paths are valid paths in
-- the source, and it says who authorized it: the owner, or a grant whose capabilities and whose role
-- both let it commit.
pub validate_commit-authorized :
    (r : AgentFsCommitRecord)
    → validate_commit r ≡ ok tt
    → (is_empty r.paths ≡ false)
      × (all (λ p. is_ok (validate_source_relative_path p.path)) r.paths ≡ true)
      × (a : AgentFsAuthorization) × (r.authorized_by ≡ some a)
      × (may_commit a ≡ true)
unfolding validate_commit
validate_commit-authorized r h =
    let h1 = (both (validate_schema r.schema_version) _ h).1 in
    let h2 = (both (validate_id_field "commit_id" r.commit_id (codes "cmt_") 32) _ h1).1 in
    let h3 = (both (validate_id_field "fs_id" r.fs_id (codes "fs_") 32) _ h2).1 in
    let parent : Text → Checked = λ id. validate_id_field "parent_commit_id" id (codes "cmt_") 32 in
    let h4 = (both (optional parent r.parent_commit_id) _ h3).1 in
    let base : Text → Checked = λ id. validate_id_field "base_commit_id" id (codes "cmt_") 32 in
    let h5 = (both (optional base r.base_commit_id) _ h4).1 in
    let h6 = (both (validate_id_field "agent_id" r.agent_id (codes "agt_") 32) _ h5).1 in
    let h7 = (both (validate_non_empty "summary" (trim r.summary)) _ h6).1 in
    let e = malformed_record "paths" in
    let (some_path, h8) = both (guard (not (is_empty r.paths)) e) _ h7 in
    let nonempty = guarded (not (is_empty r.paths)) e some_path in
    let (valid, h9) = both (each validate_commit_path r.paths) _ h8 in
    let (a, has, h10) = >>=-eq-ok (require "authorized_by" r.authorized_by) _ h9 in
    let (auth, h11) = both (validate_authorization a) _ h10 in
    (
      ground arith,
      paths_valid r.paths valid,
      a,
      found "authorized_by" r.authorized_by has,
      authorized a auth,
    )
