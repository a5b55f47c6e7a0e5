-- ===== src/Base/HashMap.antt =====
-- `HashMap` as an association list. The program reads it by key alone, or after sorting, so the
-- order of the entries stands for the unspecified iteration order.
use mathlib.Core.Path.{◌≡◌, refl}
use mathlib.Core.Logic.{◌≢◌, ◌⊎◌, inl, inr}
use mathlib.Core.Bool.{Bool}
use mathlib.Core.Option.{Option, none, some}
use mathlib.Core.List.{List, [], ◌∷◌, map}
use native.Mathlib.Omega.{arith}
use section.Base.Tests.{if◌then◌else◌, is_some, Bool-cases}
use section.Base.Eq.{Eq, ◌==◌}

abbrev pub HashMap {ℓ κ} : Type ℓ → Type κ → Type (ℓ ⊔ κ)
HashMap K V = List (K × V)

abbrev pub keys {ℓ κ} : {K : Type ℓ} {V : Type κ} → HashMap K V → List K
keys = map (λ e. e.0)

-- `retain` by the key.
abbrev pub retain {ℓ κ} : {K : Type ℓ} {V : Type κ} → (K → Bool) → HashMap K V → HashMap K V
retain p [] = []
retain p ((k, v) ∷ m) = let rest = retain p m in if p k then (k, v) ∷ rest else rest

module _ {ℓ κ} {K : Type ℓ} {V : Type κ} ⦃e : Eq K⦄ where
  unfoldable pub get : HashMap K V → K → Option V
  get [] k = none
  get ((j, v) ∷ m) k = if j == k then some v else get m k

  unfoldable pub remove : HashMap K V → K → HashMap K V
  remove [] k = []
  remove ((j, v) ∷ m) k = let rest = remove m k in if j == k then rest else (j, v) ∷ rest

  unfoldable pub insert : HashMap K V → K → V → HashMap K V
  insert m k v = (k, v) ∷ remove m k

  abbrev pub contains_key : HashMap K V → K → Bool
  contains_key m k = is_some (get m k)

  pub get-remove :
      (m : HashMap K V) (k j : K) → get (remove m k) j ≡ (if k == j then none else get m j)
  unfolding get remove
  get-remove [] k j = ground arith
  get-remove ((i, v) ∷ m) k j =
      ground (arith, get-remove m k j, e.beq_iff i k, e.beq_iff i j, e.beq_iff k j)

  pub get-insert :
      (m : HashMap K V) (k : K) (v : V) (j : K)
      → get (insert m k v) j ≡ (if k == j then some v else get m j)
  unfolding get insert
  get-insert m k v j = ground (arith, get-remove m k j)

  pub get-retain :
      (p : K → Bool) (m : HashMap K V) (j : K)
      → get (retain p m) j ≡ (if p j then get m j else none)
  unfolding get
  get-retain p [] j = ground arith
  get-retain p ((i, v) ∷ m) j = ground (arith, get-retain p m j, e.beq_iff i j)

  pub get-remove-some :
      (m : HashMap K V) (k j : K) (v : V)
      → get (remove m k) j ≡ some v
      → (k ≢ j) × (get m j ≡ some v)
  get-remove-some m k j v h = (
    λ same. ground (arith, get-remove m k j, e.beq_iff k j, h),
    ground (arith, get-remove m k j, h),
  )

  pub get-remove-other : (m : HashMap K V) (k j : K) → k ≢ j → get (remove m k) j ≡ get m j
  get-remove-other m k j h = ground (arith, get-remove m k j, e.beq_iff k j)

  pub get-insert-same : (m : HashMap K V) (k : K) (v : V) → get (insert m k v) k ≡ some v
  get-insert-same m k v = ground (arith, get-insert m k v k, e.beq_iff k k)

  pub get-insert-other :
      (m : HashMap K V) (k : K) (v : V) (j : K) → k ≢ j → get (insert m k v) j ≡ get m j
  get-insert-other m k v j h = ground (arith, get-insert m k v j, e.beq_iff k j)

  pub get-insert-some :
      (m : HashMap K V) (k : K) (v : V) (j : K) (w : V)
      → get (insert m k v) j ≡ some w
      → ((k ≡ j) × (v ≡ w)) ⊎ ((k ≢ j) × (get m j ≡ some w))
  get-insert-some m k v j w h = elim (Bool-cases (k == j)) [
    | inl same ↦ inl ((e.beq_iff k j).0 same, ground (arith, get-insert m k v j, same, h))
    | inr apart ↦ inr (
      λ same. ground (arith, (e.beq_iff k j).1 same, apart),
      ground (arith, get-insert m k v j, apart, h),
    )
  ]

  pub get-empty : (k : K) → get [] k ≡ none
  unfolding get
  get-empty k = refl

pub ruleset map_laws = (get-remove, get-insert, get-retain, get-empty)
