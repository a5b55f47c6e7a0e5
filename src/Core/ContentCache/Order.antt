-- ===== src/Core/ContentCache/Order.antt =====
-- The order of `ContentCache` as a list without repetition, and the bytes behind its paths.
use section.Base.{
  ℕ, ◌+◌, ◌≡◌, refl, Bool, true, false, not, ◌&&◌, ◌||◌, Option, none, some, List, [], ◌∷◌, ◌++◌,
  arith, ◌==◌, ==_iff, list_eq, nat_eq, length, contains,
}
use section.Base.Text.{Text}
use section.Base.HashMap
use section.Base.HashMap.{HashMap, get-remove, get-insert}
use section.Core.ContentCache.{Bytes, remove_from_order}

abbrev pub unique : List Text → Bool
unique [] = true
unique (p ∷ ps) = not (contains ps p) && unique ps

abbrev pub byte_count : Option Bytes → ℕ
byte_count none = 0
byte_count (some b) = length b

-- The bytes that the entries hold for the paths of the list.
abbrev pub weight : HashMap Text Bytes → List Text → ℕ
weight m [] = 0
weight m (p ∷ ps) = byte_count (HashMap.get m p) + weight m ps

pub contains-append :
    (ps qs : List Text) (k : Text) → contains (ps ++ qs) k ≡ (contains ps k || contains qs k)
contains-append [] qs k = refl
contains-append (p ∷ ps) qs k = ground (arith, contains-append ps qs k)

pub unique-push :
    (ps : List Text) (k : Text)
    → unique ps ≡ true
    → contains ps k ≡ false
    → unique (ps ++ k ∷ []) ≡ true
unique-push [] k u h = refl
unique-push (p ∷ ps) k u h =
    let swap : (p == k) ≡ (k == p) = ground (arith, ==_iff p k, ==_iff k p) in
    ground (arith, unique-push ps k, contains-append ps (k ∷ []) p)

pub contains-remove :
    (ps : List Text) (k j : Text)
    → unique ps ≡ true
    → contains (remove_from_order ps k) j ≡ (contains ps j && not (k == j))
unfolding remove_from_order
contains-remove [] k j u = refl
contains-remove (p ∷ ps) k j u =
    ground (arith, contains-remove ps k j, ==_iff p k, ==_iff p j, ==_iff k j)

pub unique-remove :
    (ps : List Text) (k : Text) → unique ps ≡ true → unique (remove_from_order ps k) ≡ true
unfolding remove_from_order
unique-remove [] k u = refl
unique-remove (p ∷ ps) k u = ground (arith, unique-remove ps k, contains-remove ps k p)

pub weight-append :
    (m : HashMap Text Bytes) (ps qs : List Text) → weight m (ps ++ qs) ≡ weight m ps + weight m qs
weight-append m [] qs = omega arith
weight-append m (p ∷ ps) qs = omega (arith, weight-append m ps qs)

pub weight-remove :
    (m : HashMap Text Bytes) (ps : List Text) (k : Text)
    → contains ps k ≡ false
    → weight (HashMap.remove m k) ps ≡ weight m ps
weight-remove m [] k h = refl
weight-remove m (p ∷ ps) k h =
    ground (arith, weight-remove m ps k, get-remove m k p, ==_iff p k, ==_iff k p)

pub weight-insert :
    (m : HashMap Text Bytes) (ps : List Text) (k : Text) (b : Bytes)
    → contains ps k ≡ false
    → weight (HashMap.insert m k b) ps ≡ weight m ps
weight-insert m [] k b h = refl
weight-insert m (p ∷ ps) k b h =
    ground (arith, weight-insert m ps k b, get-insert m k b p, ==_iff p k, ==_iff k p)

pub weight-split :
    (m : HashMap Text Bytes) (ps : List Text) (k : Text)
    → contains ps k ≡ true
    → weight m ps ≡ byte_count (HashMap.get m k) + weight m (remove_from_order ps k)
unfolding remove_from_order
weight-split m [] k h = cc
weight-split m (p ∷ ps) k h = ground (arith, weight-split m ps k, ==_iff p k)
