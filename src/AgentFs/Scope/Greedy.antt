-- ===== src/AgentFs/Scope/Greedy.antt =====
-- `segment_matches` of crates/sectiond/src/agentfs.rs takes each piece at its first place and
-- never looks further, so a pattern with an ending behind its star misses texts that it covers.
use mathlib.Core.List.{append-nil}
use native.Mathlib.Nat.{zero-add}
use section.Base.{
  ℕ, ◌+◌, ◌≡◌, refl, subst, true, false, some, [], ◌∷◌, ◌++◌, arith, length, drop, nat_eq, list_eq,
}
use section.Base.Text.{Text, star}
use section.Base.Text.Segments.{Lacks, split_of_Lacks}
use section.Base.Text.Search.{find_text-append, drop-append}
use section.AgentFs.Scope.{match_parts, segment_matches}
use section.AgentFs.Scope.Glob.{Glob, done, skip, Glob-literal, Glob-gap, ends-Lacks}

match_once :
    (c : ℕ) (t r : Text) → match_parts false true ((c ∷ t) ++ r) ([] ∷ (c ∷ t) ∷ []) ≡ some r
unfolding match_parts
match_once c t r =
    let tail : drop (0 + length (c ∷ t)) ((c ∷ t) ++ r) ≡ r = rw zero-add (drop-append (c ∷ t) r) in
    ground (arith, find_text-append c t r, tail)

-- An ending that stands twice is covered by `*` and the ending, and the matcher rejects it.
pub segment_matches-twice :
    (c : ℕ) (t : Text)
    → Lacks star (c ∷ t)
    → let ending = c ∷ t in
      (segment_matches (ending ++ ending) (star ∷ ending) ≡ false)
      × Glob (star ∷ ending) (ending ++ ending)
unfolding segment_matches
segment_matches-twice c t h = (
  ground (arith, match_once c t (c ∷ t), split_of_Lacks star (c ∷ t) h, ends-Lacks (c ∷ t) star h),
  Glob-gap (c ∷ t)
      (skip refl (subst (λ x. Glob x x) (append-nil (c ∷ t)) (Glob-literal (c ∷ t) h done))),
)
