-- ===== src/Tests/Access.antt =====
-- Scopes, grants and paths of an AgentFS, at concrete values.
use section.AgentFs.Access.Agreement.{
  is_grant_denied, authorize_paths_for_fs-grant_denied, authorize_capability_for_fs-has_capability,
}
use section.Base.{
  ◌≡◌, refl, false, not, ◌&&◌, ◌||◌, none, some, List, [], ◌∷◌, ◌++◌, ◌==◌, nat_eq, list_eq, any,
  all, is_ok, is_empty,
}
use section.Base.Text.{Text, codes, slash, split}
use section.Base.Text.Segments.{is_prefix, is_under}
use section.AgentFs.Scope.{
  globstar, match_parts, segment_matches, path_segments_match, path_matches_scope,
}
use section.AgentFs.Scope.Glob.{Glob}
use section.AgentFs.Scope.Paths.{Covers, path_matches_scope-Covers, path_matches_scope-subtree}
use section.AgentFs.Scope.Greedy.{segment_matches-twice}
use section.AgentFs.Access.{
  read, commit, reader, AgentFsRecord, AgentFsGrantRecord, is_owner, applies, has_capability,
  authorize_capability_for_fs, authorize_paths_for_fs,
}
use section.AgentFs.Access.Scopes.{covers, authorize_paths_for_fs-covers}
use section.AgentFs.SourcePath.{
  validate_source_relative_path, dot_dot, section_root, validate_source_relative_path-components,
}

abbrev docs_scope : List Text
docs_scope = codes "docs" ∷ globstar ∷ []

path_matches_scope-Covers_example :
    Covers (λ p s. Glob s p) (split slash (codes "docs/*.md")) (split slash (codes "docs/a.md"))
unfolding path_matches_scope path_segments_match segment_matches match_parts
path_matches_scope-Covers_example =
    path_matches_scope-Covers (codes "docs/a.md") (codes "docs/*.md") refl

path_matches_scope-subtree_example :
    path_matches_scope (codes "docs/a/b") (codes "docs" ++ slash ∷ globstar)
    ≡ is_under slash (codes "docs") (codes "docs/a/b")
path_matches_scope-subtree_example =
    path_matches_scope-subtree (codes "docs") (codes "docs/a/b") refl

-- `*ab` does not admit `abab`.
segment_matches-twice_example :
    (segment_matches (codes "abab") (codes "*ab") ≡ false) × Glob (codes "*ab") (codes "abab")
segment_matches-twice_example = segment_matches-twice 97 (98 ∷ []) refl

abbrev fs : AgentFsRecord
fs = record {
  schema_version = 1;
  fs_id = codes "fs";
  name = codes "work";
  owner_agent_id = codes "alice";
  source_profile_id = codes "p";
  source_name = codes "fs";
  created_at_ms = 1;
}

abbrev docs_grant : AgentFsGrantRecord
docs_grant = record {
  schema_version = 1;
  grant_id = codes "g1";
  fs_id = codes "fs";
  agent_id = codes "bob";
  role = reader;
  capabilities = read ∷ [];
  path_scopes = some (codes "docs/**" ∷ []);
  granted_by = codes "alice";
  created_at_ms = 2;
  revoked_at_ms = none;
  revoked_by = none;
}

abbrev grants : List AgentFsGrantRecord
grants = docs_grant ∷ []

authorize_capability_for_fs-has_capability_example :
    is_ok (authorize_capability_for_fs fs grants (codes "bob") commit)
    ≡ has_capability fs grants (codes "bob") commit
authorize_capability_for_fs-has_capability_example =
    authorize_capability_for_fs-has_capability fs grants (codes "bob") commit

authorize_paths_for_fs-covers_example :
    is_ok (authorize_paths_for_fs fs grants (codes "bob") read (codes "docs/a" ∷ [])) ≡ (
      is_owner fs grants (codes "bob") read
      || any
          (λ g.
            g.fs_id == codes "fs"
            && (applies (codes "bob") read g && covers (codes "docs/a" ∷ []) g.path_scopes))
          grants)
authorize_paths_for_fs-covers_example =
    authorize_paths_for_fs-covers fs grants (codes "bob") read (codes "docs/a" ∷ [])

validate_source_relative_path-components_example :
    is_ok (validate_source_relative_path (codes "a/../b")) ≡ (
      is_empty (codes "a/../b")
      || (all (λ s. not (s == dot_dot) && not (is_empty s)) (split slash (codes "a/../b"))
          && not (is_prefix (section_root ∷ []) (split slash (codes "a/../b")))))
validate_source_relative_path-components_example =
    validate_source_relative_path-components (codes "a/../b")

authorize_paths_for_fs-grant_denied_example :
    is_grant_denied (authorize_paths_for_fs fs grants (codes "bob") read (codes "src/a" ∷ []))
    ≡ not (has_capability fs grants (codes "bob") read)
authorize_paths_for_fs-grant_denied_example =
    authorize_paths_for_fs-grant_denied fs grants (codes "bob") read (codes "src/a" ∷ [])
