-- ===== src/Core/Paths.antt =====
-- The path helpers at the end of crates/section-core/src/cache.rs.
use section.Base.{
  ◌≡◌, refl, Bool, true, false, ◌||◌, Option, none, some, List, [], ◌∷◌, ◌++◌, arith, if◌then◌else◌,
  is_empty, ◌==◌, list_eq, nat_eq,
}
use section.Base.Text.{
  Text, slash, before_last, trim_end, trim_matches, strip_prefix, starts_with, split,
}
use section.Base.Text.Segments.{is_prefix, is_prefix-split}

unfoldable pub parent_dir : Text → Option Text
parent_dir path = before_last slash (trim_end slash path)

-- The `is_some_and` of the last line.
abbrev goes_on : Option Text → Bool
goes_on none = false
goes_on (some rest) = starts_with rest (slash ∷ [])

unfoldable pub path_matches_prefix : Text → Text → Bool
path_matches_prefix path prefix =
    let path = trim_matches slash path in
    let prefix = trim_matches slash prefix in
    if is_empty prefix then true else path == prefix || goes_on (strip_prefix path prefix)

goes_on-strip : (s p : Text) → goes_on (strip_prefix s p) ≡ starts_with s (p ++ slash ∷ [])
goes_on-strip s [] = refl
goes_on-strip [] (c ∷ p) = refl
goes_on-strip (x ∷ s) (c ∷ p) = ground (arith, goes_on-strip s p)

-- A path matches a prefix exactly if, the slashes at both ends taken off, the prefix is empty or
-- its components are the first components of the path.
pub path_matches_prefix-components :
    (path prefix : Text)
    → let components : Text → List Text = λ s. split slash (trim_matches slash s) in
      path_matches_prefix path prefix
      ≡ (is_empty (trim_matches slash prefix) || is_prefix (components prefix) (components path))
unfolding path_matches_prefix
path_matches_prefix-components path prefix =
    let s = trim_matches slash path in
    let d = trim_matches slash prefix in
    ground (arith, goes_on-strip s d, is_prefix-split slash d s)
