-- ===== src/Base/Text/Segments.antt =====
-- What splitting a text at a character and joining the pieces again do to one another.
use section.Base.Tests.{Option-cases, and_true, bool_ext, or_true, Bool-cases, nat_beq_iff}
use section.Base.Text.Search.{strip_prefix_sound, strip_prefix-append}
use section.Base.Text.{strip_prefix, starts_with, Text, contains_char, split, join, onto_first}
use mathlib.Core.Option.{some}
use mathlib.Core.Bool.{Bool, true, ◌&&◌, ◌||◌, false}
use mathlib.Core.List.{◌++◌, append_assoc, append-nil, List, [], ◌∷◌}
use section.Base.Eq.{list_eq, ==_refl, ==_iff, ◌==◌, nat_eq}
use mathlib.Core.Path.{sym, ◌∙◌, ap, subst, ◌≡◌, refl}
use Prim.Native.Nat.{ℕ}
use mathlib.Core.Logic.{inl, inr}
use native.Mathlib.Omega.{arith}
use section.Base.Lists.{All}

abbrev pub Lacks : ℕ → Text → Type 0
Lacks c s = contains_char s c ≡ false

join-onto_first : (c x : ℕ) (ps : List Text) → join c (onto_first x ps) ≡ x ∷ join c ps
join-onto_first c x [] = refl
join-onto_first c x (p ∷ []) = refl
join-onto_first c x (p ∷ q ∷ ps) = refl

pub split_nonempty : (c : ℕ) (s : Text) → (p : Text) × (ps : List Text) × (split c s ≡ p ∷ ps)
split_nonempty c [] = ([], [], refl)
split_nonempty c (x ∷ s) = elim (Bool-cases (x == c)) [
  | inl e ↦ ([], split c s, rw e)
  | inr e ↦ let (p, ps, q) = split_nonempty c s in (x ∷ p, ps, rw (e, q))
]

-- Joining the pieces gives the text back.
pub join-split : (c : ℕ) (s : Text) → join c (split c s) ≡ s
join-split c [] = refl
join-split c (x ∷ s) =
    let (p, ps, q) = split_nonempty c s in
    ground (arith, join-split c s, q, join-onto_first c x (split c s), nat_beq_iff x c)

-- No piece holds the separator.
pub split-All-Lacks : (c : ℕ) (s : Text) → All (Lacks c) (split c s)
split-All-Lacks c [] = (refl, tt)
split-All-Lacks c (x ∷ s) =
    let (p, ps, q) = split_nonempty c s in
    let ih = split-All-Lacks c s in
    elim (Bool-cases (x == c)) [
      | inl e ↦ rw e (refl, ih)
      | inr e ↦ rw (e, q) (let (h, t) = (rw q at ih) in (rw (e, h), t))
    ]

-- What a text lacks, its pieces lack.
pub split-Lacks : (c d : ℕ) (s : Text) → Lacks d s → All (Lacks d) (split c s)
split-Lacks c d [] h = (refl, tt)
split-Lacks c d (x ∷ s) h =
    let (p, ps, q) = split_nonempty c s in
    let ih = split-Lacks c d s (ground arith) in
    elim (Bool-cases (x == c)) [
      | inl e ↦ rw e (refl, ih)
      | inr e ↦ rw (e, q) (let (g, t) = (rw q at ih) in (ground arith, t))
    ]

-- Splitting behind a separator splits the two sides.
pub split-append : (c : ℕ) (s t : Text) → split c (s ++ c ∷ t) ≡ split c s ++ split c t
split-append c [] t = ground (arith, nat_beq_iff c c)
split-append c (x ∷ s) t = elim (Bool-cases (x == c)) [
  | inl e ↦ rw (e, split-append c s t)
  | inr e ↦ let (p, ps, q) = split_nonempty c s in rw (e, split-append c s t, q)
]

-- The first list stands at the front of the second.
abbrev pub is_prefix : List Text → List Text → Bool
is_prefix [] qs = true
is_prefix (p ∷ ps) [] = false
is_prefix (p ∷ ps) (q ∷ qs) = p == q && is_prefix ps qs

is_prefix-append : (ps rest : List Text) → is_prefix ps (ps ++ rest) ≡ true
is_prefix-append [] rest = refl
is_prefix-append (p ∷ ps) rest = rw (==_refl p) (is_prefix-append ps rest)

is_prefix_rest :
    (ps qs : List Text) → is_prefix ps qs ≡ true → (rest : List Text) × (qs ≡ ps ++ rest)
is_prefix_rest [] qs h = (qs, refl)
is_prefix_rest (p ∷ ps) [] h = cc
is_prefix_rest (p ∷ ps) (q ∷ qs) h =
    let (rest, e) = is_prefix_rest ps qs (and_true (p == q) _ h).1 in
    (rest, rw ((==_iff p q).0 (and_true (p == q) _ h).0, e))

join-append :
    (c : ℕ) (p : Text) (ps : List Text) (r : Text) (rs : List Text)
    → join c ((p ∷ ps) ++ r ∷ rs) ≡ join c (p ∷ ps) ++ (c ∷ join c (r ∷ rs))
join-append c p [] r rs = refl
join-append c p (q ∷ ps) r rs = rw (join-append c q ps r rs, append_assoc)

-- The text is the other one, or goes on behind it with a separator.
abbrev pub is_under : ℕ → Text → Text → Bool
is_under c d s = s == d || starts_with s (d ++ c ∷ [])

under_of_rest :
    (c : ℕ) (d s : Text) (rest : List Text) → split c s ≡ split c d ++ rest → is_under c d s ≡ true
under_of_rest c d s [] e =
    let same : s ≡ d =
      sym (join-split c s) ∙ ap (join c) (e ∙ append-nil (split c d)) ∙ join-split c d in
    ground (arith, ==_iff s d)
under_of_rest c d s (r ∷ rs) e =
    let (p, ps, cut) = split_nonempty c d in
    let tail = c ∷ join c (r ∷ rs) in
    let whole : join c (split c d ++ r ∷ rs) ≡ d ++ tail =
      (subst (λ q. join c (q ++ r ∷ rs) ≡ join c q ++ tail) (sym cut) (join-append c p ps r rs))
      ∙ ap (λ (t : Text). t ++ tail) (join-split c d) in
    let apart : s ≡ (d ++ c ∷ []) ++ join c (r ∷ rs) =
      sym (join-split c s) ∙ ap (join c) e ∙ whole ∙ sym (append_assoc d (c ∷ []) _) in
    let found : strip_prefix s (d ++ c ∷ []) ≡ some (join c (r ∷ rs)) =
      ap (λ (t : Text). strip_prefix t (d ++ c ∷ [])) apart ∙ strip_prefix-append (d ++ c ∷ []) _ in
    ground arith

under_of_prefix :
    (c : ℕ) (d s : Text) → is_prefix (split c d) (split c s) ≡ true → is_under c d s ≡ true
under_of_prefix c d s h =
    let (rest, e) = is_prefix_rest (split c d) (split c s) h in under_of_rest c d s rest e

prefix_of_under :
    (c : ℕ) (d s : Text) → is_under c d s ≡ true → is_prefix (split c d) (split c s) ≡ true
prefix_of_under c d s h = elim (or_true (s == d) _ h) [
  | inl same ↦ rw ((==_iff s d).0 same) (rw append-nil at (is_prefix-append (split c d) []))
  | inr below ↦ elim (Option-cases (strip_prefix s (d ++ c ∷ []))) [
    | inl missing ↦ absurd (ground arith)
    | inr (r, found) ↦
        let apart : s ≡ d ++ c ∷ r = strip_prefix_sound s _ found ∙ append_assoc d (c ∷ []) r in
        rw (apart, split-append) (is_prefix-append (split c d) (split c r))
  ]
]

-- Segments in front of segments: the same as the text test.
pub is_prefix-split : (c : ℕ) (d s : Text) → is_prefix (split c d) (split c s) ≡ is_under c d s
is_prefix-split c d s = bool_ext _ _ (under_of_prefix c d s) (prefix_of_under c d s)

pub split_of_Lacks : (c : ℕ) (s : Text) → Lacks c s → split c s ≡ s ∷ []
split_of_Lacks c [] h = refl
split_of_Lacks c (x ∷ s) h = ground (arith, split_of_Lacks c s)
