-- ===== src/AgentFs/Scope.antt =====
-- The path scopes of a grant: `path_matches_any_scope`, `path_matches_scope`,
-- `path_segments_match` and `segment_matches` of crates/sectiond/src/agentfs.rs.
pub mod Glob
pub mod Paths
pub mod Greedy
use section.Base.{
  ℕ, Bool, true, false, not, ◌&&◌, ◌||◌, Option, none, some, List, [], ◌∷◌, ◌+◌, any, is_empty,
  length, drop, if◌then◌else◌, ◌==◌, nat_eq, list_eq,
}
use section.Base.Text.{
  Text, slash, star, contains_char, strip_prefix, find_text, ends_with_char, split,
}

abbrev pub globstar : Text
globstar = star ∷ star ∷ []

abbrev pub starts_with_char : Text → ℕ → Bool
starts_with_char [] c = false
starts_with_char (x ∷ s) c = x == c

-- The loop over `pattern.split('*')`: `none` is the early `return false`, and `some` is the
-- remainder at its end. `anchored` is `!pattern.starts_with('*')`.
unfoldable pub match_parts : Bool → Bool → Text → List Text → Option Text
match_parts anchored first remainder [] = some remainder
match_parts anchored first remainder ([] ∷ parts) = match_parts anchored first remainder parts
match_parts anchored first remainder ((c ∷ cs) ∷ parts) =
    if first && anchored
    then elim (strip_prefix remainder (c ∷ cs)) [
      | none ↦ none
      | some stripped ↦ match_parts anchored false stripped parts
    ]
    else elim (find_text remainder (c ∷ cs)) [
      | none ↦ none
      | some index ↦ match_parts anchored false (drop (index + length (c ∷ cs)) remainder) parts
    ]

unfoldable pub segment_matches : Text → Text → Bool
segment_matches value pattern =
    if pattern == star ∷ []
    then true
    else if not (contains_char pattern star)
    then value == pattern
    else elim (match_parts (not (starts_with_char pattern star)) true value (split star pattern)) [
      | none ↦ false
      | some remainder ↦ ends_with_char pattern star || is_empty remainder
    ]

-- `path_segments_match(path, scope)`, by recursion on the scope and then on the path.
unfoldable pub path_segments_match : List Text → List Text → Bool
path_segments_match path [] = is_empty path
path_segments_match [] (s ∷ scope) = if s == globstar then path_segments_match [] scope else false
path_segments_match (p ∷ path) (s ∷ scope) = elim (s == globstar) [
  | true ↦ path_segments_match (p ∷ path) scope || path_segments_match path (s ∷ scope)
  | false ↦ segment_matches p s && path_segments_match path scope
]

unfoldable pub path_matches_scope : Text → Text → Bool
path_matches_scope path scope = path_segments_match (split slash path) (split slash scope)

unfoldable pub path_matches_any_scope : Text → List Text → Bool
path_matches_any_scope path scopes = any (path_matches_scope path) scopes
