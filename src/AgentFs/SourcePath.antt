-- ===== src/AgentFs/SourcePath.antt =====
-- `is_reserved_metadata_path` and `validate_source_relative_path` of crates/sectiond/src/agentfs.rs.
use section.Base.{
  Bool, true, false, not, ◌&&◌, ◌||◌, List, [], ◌∷◌, any, all, is_empty, if◌then◌else◌, ◌==◌, ◌≡◌,
  refl, arith, nat_eq, list_eq, Result, ok, err, ◌>>◌, guard, is_ok, sym, ◌∙◌, inl, inr, Bool-cases,
}
use section.Base.Text.{
  Text, slash, codes, trim_matches, trim_end, ends_with_char, starts_with, split,
}
use section.Base.Text.Segments.{split_nonempty, is_prefix, is_prefix-split}

-- ".section" and ".."
abbrev pub section_root : Text
section_root = codes ".section"

abbrev pub dot_dot : Text
dot_dot = codes ".."

unfoldable pub is_reserved_metadata_path : Text → Bool
is_reserved_metadata_path path =
    let path = trim_matches slash path in
    path == section_root || starts_with path (codes ".section/")

pub data PathError : Type 0 where
  not_relative reserved invalid_segment : Text → PathError

-- The loop over the segments.
unfoldable pub check_segments : Text → List Text → Result PathError (Unit {0})
check_segments path [] = ok tt
check_segments path (segment ∷ segments) =
    let rest = check_segments path segments in
    if segment == dot_dot || (is_empty segment && not (is_empty path))
    then err (invalid_segment path)
    else rest

unfoldable pub validate_source_relative_path : Text → Result PathError (Unit {0})
unfolding is_reserved_metadata_path check_segments
validate_source_relative_path path = do
  guard (not (starts_with path (slash ∷ []))) (not_relative path)
  guard (not (is_reserved_metadata_path path)) (reserved path)
  check_segments path (split slash path)

check_segments-ok :
    (path : Text) (segments : List Text)
    → is_ok (check_segments path segments)
      ≡ all (λ s. not (s == dot_dot) && (is_empty path || not (is_empty s))) segments
unfolding check_segments
check_segments-ok path [] = refl
check_segments-ok path (s ∷ segments) = ground (arith, check_segments-ok path segments)

tail : List Text → List Text
tail [] = []
tail (p ∷ ps) = ps

-- A text that ends with a slash has an empty last segment behind another one.
ends_slash : (s : Text) → ends_with_char s slash ≡ true → any is_empty (tail (split slash s)) ≡ true
unfolding tail
ends_slash [] h = absurd cc
ends_slash (x ∷ []) h = rw h refl
ends_slash (x ∷ y ∷ s) h =
    let (p, ps, q) = split_nonempty slash (y ∷ s) in
    let before = ends_slash (y ∷ s) h in
    let ih = (rw q at before) in
    elim (Bool-cases (x == slash)) [ inl e ↦ rw (e, q) (ground (arith, ih)) | inr e ↦ rw (e, q) ih ]

trim_end_none : (s : Text) → ends_with_char s slash ≡ false → trim_end slash s ≡ s
trim_end_none [] h = refl
trim_end_none (x ∷ []) h = rw h refl
trim_end_none (x ∷ y ∷ s) h = let ih = trim_end_none (y ∷ s) h in rw ih (ground arith)

-- Without an empty segment there is no slash to take off.
trim_none : (s : Text) → any is_empty (split slash s) ≡ false → trim_matches slash s ≡ s
unfolding tail
trim_none [] h = refl
trim_none (x ∷ s) h =
    let (p, ps, q) = split_nonempty slash (x ∷ s) in
    let first : (x == slash) ≡ false = ground arith in
    let ends : ends_with_char (x ∷ s) slash ≡ false = ground (arith, q, h, ends_slash (x ∷ s)) in
    rw first (trim_end_none (x ∷ s) ends)

reserved-components :
    (path : Text)
    → any is_empty (split slash path) ≡ false
    → is_reserved_metadata_path path ≡ is_prefix (section_root ∷ []) (split slash path)
unfolding is_reserved_metadata_path
reserved-components path h = rw (trim_none path h) (sym (is_prefix-split slash section_root path))

starts_slash :
    (path : Text) → any is_empty (split slash path) ≡ false → starts_with path (slash ∷ []) ≡ false
starts_slash [] h = refl
starts_slash (x ∷ s) h = ground arith

segments_ok :
    (segments : List Text)
    → any is_empty segments ≡ true
    → all (λ s. not (s == dot_dot) && not (is_empty s)) segments ≡ false
segments_ok [] h = absurd cc
segments_ok (s ∷ segments) h = ground (arith, segments_ok segments)

guards_ok :
    (a b : Bool) (e f : PathError) (m : Result PathError (Unit {0}))
    → is_ok (guard a e >> (guard b f >> m)) ≡ (a && (b && is_ok m))
guards_ok a b e f m = ground arith

-- A path is accepted exactly if it is empty, or no component of it is empty or `..` and its first
-- component is not `.section`.
pub validate_source_relative_path-components :
    (path : Text)
    → is_ok (validate_source_relative_path path) ≡ (
        is_empty path
        || (all (λ s. not (s == dot_dot) && not (is_empty s)) (split slash path)
            && not (is_prefix (section_root ∷ []) (split slash path))))
unfolding validate_source_relative_path is_reserved_metadata_path
validate_source_relative_path-components [] = refl
validate_source_relative_path-components (x ∷ s) =
    let path = x ∷ s in
    let chain =
      guards_ok (not (starts_with path (slash ∷ []))) (not (is_reserved_metadata_path path))
        (not_relative path) (reserved path) (check_segments path (split slash path)) in
    let checked = check_segments-ok path (split slash path) in
    elim (Bool-cases (any is_empty (split slash path))) [
      | inl e ↦ chain ∙ ground (arith, checked, segments_ok (split slash path) e)
      | inr e ↦ chain ∙ ground (arith, checked, starts_slash path e, reserved-components path e)
    ]
