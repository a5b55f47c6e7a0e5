-- ===== src/Base/Text/Search.antt =====
-- What `strip_prefix` and `find_text` find.
use Prim.Native.Nat.{ℕ, zero, suc, ◌+◌}
use Prim.Native.Nat.add
use mathlib.Core.Path.{◌≡◌, refl, ap}
use mathlib.Core.Logic.{inl, inr}
use mathlib.Core.Option.{some}
use mathlib.Core.List.{[], ◌∷◌, ◌++◌}
use native.Mathlib.Omega.{arith}
use native.Mathlib.Nat.{zero-add}
use section.Base.Tests.{Option-cases, nat_beq_iff}
use section.Base.Eq.{nat_eq}
use section.Base.Lists.{length, drop}
use section.Base.Text.{Text, strip_prefix, find_text}

pub strip_prefix_sound : (s p : Text) {r : Text} → strip_prefix s p ≡ some r → s ≡ p ++ r
strip_prefix_sound s [] h = ground arith
strip_prefix_sound [] (c ∷ p) h = cc
strip_prefix_sound (x ∷ s) (c ∷ p) {r} h =
    ground (arith, strip_prefix_sound s p {r = r}, nat_beq_iff x c)

pub strip_prefix-append : (p r : Text) → strip_prefix (p ++ r) p ≡ some r
strip_prefix-append [] r = refl
strip_prefix-append (c ∷ p) r = ground (arith, strip_prefix-append p r, nat_beq_iff c c)

pub drop-append : (p r : Text) → drop (length p) (p ++ r) ≡ r
drop-append [] r = refl
drop-append (c ∷ p) r = drop-append p r

drop-nil : (n : ℕ) → [] ≡ drop {A = ℕ} n []
drop-nil zero = refl
drop-nil (suc n) = refl

-- What was found stands behind a gap, and what follows it is left.
pub find_text_sound :
    (s p : Text) {i : ℕ}
    → find_text s p ≡ some i
    → (g : Text) × (s ≡ g ++ (p ++ drop (i + length p) s))
find_text_sound [] [] {i} h = ([], drop-nil (i + 0))
find_text_sound [] (c ∷ p) h = cc
find_text_sound (x ∷ s) p {i} h = elim (Option-cases (strip_prefix (x ∷ s) p)) [
  | inr (r, e) ↦
      let q : x ∷ s ≡ p ++ r = strip_prefix_sound (x ∷ s) p e in
      let z : i ≡ 0 = ground arith in ([], rw (z, zero-add, q, drop-append))
  | inl e ↦ elim (Option-cases (find_text s p)) [
    | inl f ↦ absurd (ground arith)
    | inr (j, f) ↦
        let (g, q) = find_text_sound s p f in
        let z : i ≡ suc j = ground arith in (x ∷ g, rw (z, add.suc) (ap (λ (t : Text). x ∷ t) q))
  ]
]

pub find_text-append : (c : ℕ) (p r : Text) → find_text ((c ∷ p) ++ r) (c ∷ p) ≡ some 0
find_text-append c p r = ground (arith, strip_prefix-append (c ∷ p) r)
