-- ===== src/Base/Map.antt =====
-- Go's maps as association lists. The order of the list stands for the order of iteration, about
-- which Go promises nothing: what is stated of a map holds for every order.
use mathlib.Core.Path.{◌≡◌, refl}
use mathlib.Core.Option.{Option, none, some}
use mathlib.Core.List.{List, [], ◌∷◌}
use native.Mathlib.Omega.{arith}
use mathlib.Core.Logic.{◌⊎◌, inl, inr}
use orchy.Base.Tests.{if◌then◌else◌, Bool-cases}
use orchy.Base.Equality.{Eq, ◌==◌}

abbrev pub Map {ℓ κ} : Type ℓ → Type κ → Type (ℓ ⊔ κ)
Map K V = List (K × V)

module _ {ℓ} {K : Type ℓ} where
  -- The keys, in the order of iteration.
  unfoldable pub keys {κ} : {V : Type κ} → Map K V → List K
  keys [] = []
  keys ((k, v) ∷ m) = k ∷ keys m

module _ {ℓ κ} {K : Type ℓ} {V : Type κ} ⦃e : Eq K⦄ where
  -- v, ok := m[k]
  unfoldable pub lookup : K → Map K V → Option V
  lookup k [] = none
  lookup k ((j, v) ∷ m) = if j == k then some v else lookup k m

  -- delete(m, k)
  unfoldable pub delete : K → Map K V → Map K V
  delete k [] = []
  delete k ((j, w) ∷ m) = let rest = delete k m in if j == k then rest else (j, w) ∷ rest

  -- m[k] = v
  unfoldable pub insert : K → V → Map K V → Map K V
  insert k v [] = (k, v) ∷ []
  insert k v ((j, w) ∷ m) = if j == k then (k, v) ∷ m else (j, w) ∷ insert k v m

  pub lookup-insert :
      (a b : K) (x : V) (m : Map K V)
      → lookup b (insert a x m) ≡ (if a == b then some x else lookup b m)
  unfolding lookup insert
  lookup-insert a b x [] = refl
  lookup-insert a b x ((c, y) ∷ m) =
      ground (arith, e.test_iff a b, e.test_iff c a, e.test_iff c b, lookup-insert a b x m)

  pub lookup-delete :
      (k j : K) (m : Map K V) → lookup j (delete k m) ≡ (if k == j then none else lookup j m)
  unfolding lookup delete
  lookup-delete k j [] = ground arith
  lookup-delete k j ((i, w) ∷ m) =
      ground (arith, e.test_iff k j, e.test_iff i k, e.test_iff i j, lookup-delete k j m)

  -- A key of a written map is the one that was written, or was there.
  pub insert-cases :
      (a b : K) (x y : V) (m : Map K V)
      → lookup b (insert a x m) ≡ some y
      → ((a ≡ b) × (y ≡ x)) ⊎ (lookup b m ≡ some y)
  insert-cases a b x y m h = elim (Bool-cases (a == b)) [
    | inl same ↦ inl ((e.test_iff a b).0 same, ground (arith, lookup-insert a b x m))
    | inr other ↦ inr (ground (arith, lookup-insert a b x m))
  ]
