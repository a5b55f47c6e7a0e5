-- ===== src/AgentFs/Scope/Paths.antt =====
-- `path_segments_match` of crates/sectiond/src/agentfs.rs against the relation between a scope's
-- segments and a path's, and what a scope of the form `dir/**` covers.
use section.Base.{
  ◌≡◌, ◌≢◌, ◌↔◌, refl, ◌∙◌, true, List, [], ◌∷◌, ◌++◌, inl, inr, arith, All, Bool-cases, and_true,
  or_true, ◌==◌, ==_iff, list_eq, nat_eq,
}
use section.Base.Text.{Text, slash, star, split}
use section.Base.Text.Segments.{
  Lacks, split-Lacks, is_prefix, is_under, split-append, is_prefix-split,
}
use section.AgentFs.Scope.{globstar, segment_matches, path_segments_match, path_matches_scope}
use section.AgentFs.Scope.Glob.{Glob, segment_matches-Glob}

-- `**` covers any number of segments, and another segment covers one that `M` accepts.
pub data Covers (M : Text → Text → Type 0) : List Text → List Text → Type 0 where
  done : Covers M [] []
  skip : {s : Text} {ss ps : List Text} → s ≡ globstar → Covers M ss ps → Covers M (s ∷ ss) ps
  deeper :
      {s : Text} {ss ps : List Text} (p : Text)
      → s ≡ globstar
      → Covers M (s ∷ ss) ps
      → Covers M (s ∷ ss) (p ∷ ps)
  segment :
      {s p : Text} {ss ps : List Text}
      → s ≢ globstar
      → M p s
      → Covers M ss ps
      → Covers M (s ∷ ss) (p ∷ ps)

abbrev pub Accepted : Text → Text → Type 0
Accepted p s = segment_matches p s ≡ true

Covers-of_match : (ps ss : List Text) → path_segments_match ps ss ≡ true → Covers Accepted ss ps
unfolding path_segments_match
Covers-of_match [] [] h = done
Covers-of_match (p ∷ ps) [] h = cc
Covers-of_match [] (s ∷ ss) h = elim (Bool-cases (s == globstar)) [
  | inl e ↦ skip ((==_iff s globstar).0 e) (Covers-of_match [] ss (ground arith))
  | inr e ↦ absurd (ground arith)
]
Covers-of_match (p ∷ ps) (s ∷ ss) h = elim (Bool-cases (s == globstar)) [
  | inl e ↦
      let star_case : s ≡ globstar = (==_iff s globstar).0 e in
      elim (or_true (path_segments_match (p ∷ ps) ss) _ (ground arith)) [
        | inl here ↦ skip star_case (Covers-of_match (p ∷ ps) ss here)
        | inr below ↦ deeper p star_case (Covers-of_match ps (s ∷ ss) below)
      ]
  | inr e ↦
      let both = and_true (segment_matches p s) (path_segments_match ps ss) (ground arith) in
      segment (λ q. cc ((==_iff s globstar).1 q, e)) both.0 (Covers-of_match ps ss both.1)
]

match_skip :
    (ps ss : List Text) (s : Text)
    → s ≡ globstar
    → path_segments_match ps ss ≡ true
    → path_segments_match ps (s ∷ ss) ≡ true
unfolding path_segments_match
match_skip [] ss s e h = ground (arith, ==_iff s globstar)
match_skip (p ∷ ps) ss s e h = ground (arith, ==_iff s globstar)

match_of_Covers : {ps ss : List Text} → Covers Accepted ss ps → path_segments_match ps ss ≡ true
unfolding path_segments_match
match_of_Covers done = refl
match_of_Covers {ps} (skip {s} {ss} e c) = match_skip ps ss s e (match_of_Covers c)
match_of_Covers (deeper {s} {ss} {ps} p e c) = ground (arith, match_of_Covers c, ==_iff s globstar)
match_of_Covers (segment {s} {p} {ss} {ps} n m c) =
    ground (arith, match_of_Covers c, m, n, ==_iff s globstar)

-- The recursion over the segments decides the relation, for the segment test it is given.
pub path_segments_match-Covers :
    (path scope : List Text) → (path_segments_match path scope ≡ true) ↔ Covers Accepted scope path
path_segments_match-Covers path scope = (Covers-of_match path scope, match_of_Covers)

Covers-map :
    {M N : Text → Text → Type 0} {ss ps : List Text}
    → ((p s : Text) → M p s → N p s)
    → Covers M ss ps
    → Covers N ss ps
Covers-map f done = done
Covers-map f (skip e c) = skip e (Covers-map f c)
Covers-map f (deeper p e c) = deeper p e (Covers-map f c)
Covers-map f (segment {s} {p} n m c) = segment n (f p s m) (Covers-map f c)

-- A path that a scope admits is covered by it, segment by segment, by the meaning of `*` and `**`.
pub path_matches_scope-Covers :
    (path scope : Text)
    → path_matches_scope path scope ≡ true
    → Covers (λ p s. Glob s p) (split slash scope) (split slash path)
unfolding path_matches_scope
path_matches_scope-Covers path scope h =
    Covers-map (λ p s. segment_matches-Glob p s) (Covers-of_match _ _ h)

eq_comm : (a b : Text) → (a == b) ≡ (b == a)
eq_comm a b = ground (arith, ==_iff a b, ==_iff b a)

literal_match : (p s : Text) → Lacks star s → segment_matches p s ≡ (s == p)
unfolding segment_matches
literal_match p s h = ground (arith, ==_iff s (star ∷ []), eq_comm s p)

all_match : (ps : List Text) → path_segments_match ps (globstar ∷ []) ≡ true
unfolding path_segments_match
all_match [] = refl
all_match (p ∷ ps) = ground (arith, all_match ps)

subtree_match :
    (ds ps : List Text)
    → All (Lacks star) ds
    → path_segments_match ps (ds ++ globstar ∷ []) ≡ is_prefix ds ps
unfolding path_segments_match
subtree_match [] ps h = all_match ps
subtree_match (d ∷ ds) [] h = ground (arith, ==_iff d globstar, h.0)
subtree_match (d ∷ ds) (p ∷ ps) h =
    ground (arith, ==_iff d globstar, h.0, literal_match p d h.0, subtree_match ds ps h.1)

-- The scope `dir/**`, for a `dir` without stars, admits the directory and what lies under it, and
-- nothing else.
pub path_matches_scope-subtree :
    (dir path : Text)
    → Lacks star dir
    → path_matches_scope path (dir ++ slash ∷ globstar) ≡ is_under slash dir path
unfolding path_matches_scope
path_matches_scope-subtree dir path h = rw split-append (
    subtree_match (split slash dir) (split slash path) (split-Lacks slash star dir h)
    ∙ is_prefix-split slash dir path)
