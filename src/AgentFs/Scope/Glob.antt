-- ===== src/AgentFs/Scope/Glob.antt =====
-- `segment_matches` of crates/sectiond/src/agentfs.rs against the relation that a pattern with
-- stars stands for: `*` covers any run of characters, and every other character covers itself.
use section.Base.{
  ℕ, ◌+◌, ◌≡◌, ◌≢◌, refl, sym, ◌∙◌, Bool, true, false, not, ◌&&◌, ◌||◌, none, some, List, [], ◌∷◌,
  ◌++◌, inl, inr, arith, is_empty, length, drop, All, Bool-cases, Option-cases, nat_beq_iff,
  list_beq, list_beq_iff, nat_eq, list_eq,
}
use mathlib.Core.Path.{subst}
use mathlib.Core.List.{append-nil}
use section.Base.Text.{
  Text, star, contains_char, strip_prefix, find_text, ends_with_char, split, join,
}
use section.Base.Text.Segments.{Lacks, split_nonempty, join-split, split-All-Lacks}
use section.Base.Text.Search.{strip_prefix_sound, find_text_sound}
use section.AgentFs.Scope.{match_parts, segment_matches, starts_with_char}

pub data Glob : Text → Text → Type 0 where
  done : Glob [] []
  same : {p v : Text} (c : ℕ) → c ≢ star → Glob p v → Glob (c ∷ p) (c ∷ v)
  skip : {p v : Text} {c : ℕ} → c ≡ star → Glob p v → Glob (c ∷ p) v
  eat : {p v : Text} {c : ℕ} (x : ℕ) → c ≡ star → Glob (c ∷ p) v → Glob (c ∷ p) (x ∷ v)

-- A text without a star covers itself.
pub Glob-literal : {p v : Text} (s : Text) → Lacks star s → Glob p v → Glob (s ++ p) (s ++ v)
Glob-literal [] h g = g
Glob-literal (c ∷ s) h g =
    same c (λ e. cc ((nat_beq_iff c star).1 e, h)) (Glob-literal s (ground arith) g)

pub Glob-gap : {p v : Text} (g : Text) → Glob (star ∷ p) v → Glob (star ∷ p) (g ++ v)
Glob-gap [] h = h
Glob-gap (x ∷ g) h = eat x refl (Glob-gap g h)

pub Glob-star : (v : Text) → Glob (star ∷ []) v
Glob-star [] = skip refl done
Glob-star (x ∷ v) = eat x refl (Glob-star v)

-- The last piece is empty: the pattern ends in a star.
abbrev last_empty : List Text → Bool
last_empty [] = false
last_empty (p ∷ []) = is_empty p
last_empty (p ∷ q ∷ ps) = last_empty (q ∷ ps)

ends-append : (p s : Text) (c x : ℕ) → ends_with_char (p ++ x ∷ s) c ≡ ends_with_char (x ∷ s) c
ends-append [] s c x = refl
ends-append (a ∷ []) s c x = refl
ends-append (a ∷ b ∷ p) s c x = ends-append (b ∷ p) s c x

pub ends-Lacks : (p : Text) (c : ℕ) → Lacks c p → ends_with_char p c ≡ false
ends-Lacks [] c h = refl
ends-Lacks (a ∷ []) c h = ground arith
ends-Lacks (a ∷ b ∷ p) c h = ends-Lacks (b ∷ p) c (ground arith)

ends-join :
    (p q : Text) (ps : List Text)
    → All (Lacks star) (p ∷ q ∷ ps)
    → ends_with_char (join star (p ∷ q ∷ ps)) star ≡ last_empty (q ∷ ps)
ends-join p [] [] h = ends-append p [] star star
ends-join p (x ∷ q) [] h = ends-append p (x ∷ q) star star ∙ ends-Lacks (x ∷ q) star h.1.0
ends-join p [] (r ∷ ps) h = ends-append p _ star star ∙ ends-join [] r ps h.1
ends-join p (x ∷ q) (r ∷ ps) h = ends-append p _ star star ∙ ends-join (x ∷ q) r ps h.1

-- Behind a star the pieces are found one after another, with any gap in front of each.
match_parts-Glob :
    (a f : Bool) (v : Text) (p : Text) (ps : List Text) {r : Text}
    → (f && a) ≡ false
    → All (Lacks star) (p ∷ ps)
    → match_parts a f v (p ∷ ps) ≡ some r
    → (last_empty (p ∷ ps) || is_empty r) ≡ true
    → Glob (star ∷ join star (p ∷ ps)) v
unfolding match_parts
match_parts-Glob a f v [] [] n l m e = Glob-star v
match_parts-Glob a f v [] (q ∷ ps) n l m e = skip refl (match_parts-Glob a f v q ps n l.1 m e)
match_parts-Glob a f v (c ∷ p) [] {r} n l m e = elim (Option-cases (find_text v (c ∷ p))) [
  | inl missing ↦ absurd (ground arith)
  | inr (i, found) ↦
      let (g, q) = find_text_sound v (c ∷ p) found in
      let rest : drop (i + length (c ∷ p)) v ≡ [] = ground arith in
      rw (q, rest)
        (Glob-gap g (skip refl (rw (← append-nil (c ∷ p)) (Glob-literal (c ∷ p) l.0 done))))
]
match_parts-Glob a f v (c ∷ p) (q ∷ ps) {r} n l m e = elim (Option-cases (find_text v (c ∷ p))) [
  | inl missing ↦ absurd (ground arith)
  | inr (i, found) ↦
      let (g, split_at) = find_text_sound v (c ∷ p) found in
      let rest = drop (i + length (c ∷ p)) v in
      let more : match_parts a false rest (q ∷ ps) ≡ some r = ground arith in
      let ih = match_parts-Glob a false rest q ps refl l.1 more e in
      subst (Glob _) (sym split_at) (Glob-gap g (skip refl (Glob-literal (c ∷ p) l.0 ih)))
]

-- A pattern cut at its stars, two pieces at least. Only a first piece that is not empty has to
-- stand at the start.
pieces-Glob :
    (v p q : Text) (ps : List Text) {r : Text}
    → All (Lacks star) (p ∷ q ∷ ps)
    → match_parts (not (is_empty p)) true v (p ∷ q ∷ ps) ≡ some r
    → (ends_with_char (join star (p ∷ q ∷ ps)) star || is_empty r) ≡ true
    → Glob (join star (p ∷ q ∷ ps)) v
unfolding match_parts
pieces-Glob v [] q ps l m e =
    match_parts-Glob false true v q ps refl l.1 m (rw (ends-join [] q ps l) at e)
pieces-Glob v (c ∷ p) q ps {r} l m e = elim (Option-cases (strip_prefix v (c ∷ p))) [
  | inl missing ↦ absurd (ground arith)
  | inr (rest, found) ↦
      let more : match_parts true false rest (q ∷ ps) ≡ some r = ground arith in
      let ends = (rw (ends-join (c ∷ p) q ps l) at e) in
      let ih = match_parts-Glob true false rest q ps refl l.1 more ends in
      subst (Glob _) (sym (strip_prefix_sound v (c ∷ p) found)) (Glob-literal (c ∷ p) l.0 ih)
]

starts-split :
    (s p q : Text) (ps : List Text)
    → split star s ≡ p ∷ q ∷ ps
    → All (Lacks star) (p ∷ q ∷ ps)
    → starts_with_char s star ≡ is_empty p
starts-split [] p q ps h l = cc
starts-split (x ∷ s) p q ps h l = let (a, more, e) = split_nonempty star s in ground (arith, e)

split_one : (s p : Text) → split star s ≡ p ∷ [] → Lacks star s
split_one s p h =
    let e : p ≡ s = (rw h at (join-split star s)) in
    let l = (rw h at (split-All-Lacks star s)) in rw (← e) l.0

abbrev accepts : Text → Text → Bool
accepts v s = elim (match_parts (not (starts_with_char s star)) true v (split star s)) [
  | none ↦ false
  | some remainder ↦ ends_with_char s star || is_empty remainder
]

starred-Glob :
    (v s p : Text) (ps : List Text)
    → split star s ≡ p ∷ ps
    → contains_char s star ≡ true
    → accepts v s ≡ true
    → Glob s v
starred-Glob v s p [] cut starred h = cc (split_one s p cut, starred)
starred-Glob v s p (q ∷ ps) cut starred h =
    let l = (rw cut at (split-All-Lacks star s)) in
    let whole : join star (p ∷ q ∷ ps) ≡ s = (rw cut at (join-split star s)) in
    elim (Option-cases (match_parts (not (is_empty p)) true v (p ∷ q ∷ ps))) [
      | inl missing ↦ absurd (ground (arith, starts-split s p q ps cut l))
      | inr (r, found) ↦
          subst (λ t. Glob t v) whole
            (pieces-Glob v p q ps l found (rw whole (ground (arith, starts-split s p q ps cut l))))
    ]

-- What the matcher of one segment accepts, the pattern covers: a scope never reaches further
-- than its pattern.
pub segment_matches-Glob :
    (value pattern : Text) → segment_matches value pattern ≡ true → Glob pattern value
unfolding segment_matches
segment_matches-Glob value pattern h = elim (Bool-cases (list_beq pattern (star ∷ []))) [
  | inl one ↦ rw ((list_beq_iff pattern (star ∷ [])).0 one) (Glob-star value)
  | inr other ↦ elim (Bool-cases (contains_char pattern star)) [
    | inr plain ↦
        let e : value ≡ pattern = (list_beq_iff value pattern).0 (ground arith) in
        rw (e, ← append-nil pattern) (Glob-literal pattern plain done)
    | inl starred ↦
        let (p, more, cut) = split_nonempty star pattern in
        starred-Glob value pattern p more cut starred (ground arith)
  ]
]
