-- ===== src/Metadata/Walk/Fuel.antt =====
-- The fuel of `walk` (metadata/service.go): one more than the number of actions is enough.
use orchy.Base.{
  ℕ, zero, suc, ◌+◌, ◌-◌, ◌≤◌, ◌<◌, ℤ, int_eq, Bool, true, false, nat_beq, none, length, ◌≡◌, ◌≢◌,
  refl, sym, ap, ◌∙◌, arith, Option-cases, ◌⊎◌, inl, inr,
}
use mathlib.Core.Path.{fun_ext}
use native.Mathlib.Decide.{dec_le}
use orchy.Base.Map.{Map, lookup}
use orchy.Action.{Action}
use orchy.Metadata.Walk.{WalkResult, crashed, out_of_fuel, visit, walk}
use orchy.Metadata.Walk.Extends.{
  Extends, Extends-refl, Extends-trans, Extends-ne, visit-Extends, results, results-le, Extends-eq,
  results_mono, same_is_result,
}

module _ (actions : Map ℤ Action) where
  grows : (n : ℕ) (a : ℤ) → Extends (walk actions n a) (walk actions (suc n) a)
  unfolding walk
  grows zero a = tt
  grows (suc n) a =
      visit-Extends (λ b. walk actions n b) (λ b. walk actions (suc n) b) (grows n)
        (lookup a actions)

  abbrev IsStable : ℕ → Type 0
  IsStable n = (a : ℤ) → walk actions n a ≡ walk actions (suc n) a

  IsStable-suc : (n : ℕ) → IsStable n → IsStable (suc n)
  unfolding walk
  IsStable-suc n h a = ap (λ (f : ℤ → WalkResult). visit f (lookup a actions)) (fun_ext h)

  abbrev settled : ℕ → ℕ
  settled n = results (λ a. walk actions n a) actions

  walk-missing : (n : ℕ) (a : ℤ) → lookup a actions ≡ none → walk actions (suc n) a ≡ crashed
  unfolding walk
  walk-missing n a e = rw e

  IsStable-of_same : (n : ℕ) → settled (suc n) ≡ settled (suc (suc n)) → IsStable (suc n)
  IsStable-of_same n e a = elim (Option-cases (lookup a actions)) [
    | inl none_there ↦ walk-missing n a none_there ∙ sym (walk-missing (suc n) a none_there)
    | inr (act, there) ↦ Extends-eq _ _ (grows (suc n) a) (
        same_is_result (λ b. walk actions (suc n) b) (λ b. walk actions (suc (suc n)) b)
          (grows (suc n)) actions a act e there)
  ]

  settled_mono : (n : ℕ) → settled n ≤ settled (suc n)
  settled_mono n =
      results_mono (λ a. walk actions n a) (λ a. walk actions (suc n) a) (grows n) actions

  IsStable-or_more : (j : ℕ) → IsStable (suc j) ⊎ (j ≤ settled (suc j))
  IsStable-or_more zero = inr (omega arith)
  IsStable-or_more (suc j) = elim (IsStable-or_more j) [
    | inl h ↦ inl (IsStable-suc (suc j) h)
    | inr h ↦ more (nat_beq (settled (suc j)) (settled (suc (suc j)))) refl h
  ]
    where
      more :
          (b : Bool)
          → nat_beq (settled (suc j)) (settled (suc (suc j))) ≡ b
          → j ≤ settled (suc j)
          → IsStable (suc (suc j)) ⊎ (suc j ≤ settled (suc (suc j)))
      more true e h = inl (IsStable-suc (suc j) (IsStable-of_same j (ground arith)))
      more false e h = inr (ground (arith, settled_mono (suc j)))

  IsStable-at_length : IsStable (suc (length actions))
  IsStable-at_length = elim (IsStable-or_more (length actions)) [
    | inl h ↦ h
    | inr h ↦ IsStable-of_same (length actions) (
        omega (
          arith,
          settled_mono (suc (length actions)),
          results-le (λ a. walk actions (suc (suc (length actions))) a) actions,
          results-le (λ a. walk actions (suc (length actions)) a) actions,
        ))
  ]

  -- `d` more than `n`.
  abbrev up : ℕ → ℕ → ℕ
  up zero n = n
  up (suc d) n = suc (up d n)

  up_lem : (d n : ℕ) → up d n ≡ d + n
  up_lem zero n = omega arith
  up_lem (suc d) n = omega (arith, up_lem d n)

  up-grows : (d n : ℕ) (a : ℤ) → Extends (walk actions n a) (walk actions (up d n) a)
  up-grows zero n a = Extends-refl (walk actions n a)
  up-grows (suc d) n a =
      Extends-trans (walk actions n a) (walk actions (up d n) a) (walk actions (suc (up d n)) a)
        (up-grows d n a) (grows (up d n) a)

  up-IsStable : (d n : ℕ) → IsStable n → IsStable (up d n)
  up-IsStable zero n h = h
  up-IsStable (suc d) n h = IsStable-suc (up d n) (up-IsStable d n h)

  up-eq : (d n : ℕ) (a : ℤ) → IsStable n → walk actions n a ≡ walk actions (up d n) a
  up-eq zero n a h = refl
  up-eq (suc d) n a h = up-eq d n a h ∙ up-IsStable d n h a

  apart : (n k : ℕ) → n ≤ k → k ≡ up (k - n) n
  apart n k h = omega (arith, up_lem (k - n) n)

  IsStable-above : (k : ℕ) → length actions < k → IsStable k
  IsStable-above k h =
      rw (apart (suc (length actions)) k h)
        (up-IsStable (k - suc (length actions)) (suc (length actions)) IsStable-at_length)

  -- If `walk` comes to a result or to a panic with some fuel at all, then it comes to the same with
  -- any fuel above the number of actions, and so with the fuel that GetFlow's model gives it.
  pub walk_fuel :
      (fuel k : ℕ) (root : ℤ)
      → length actions < k
      → walk actions fuel root ≢ out_of_fuel
      → walk actions k root ≡ walk actions fuel root
  walk_fuel fuel k root enough ends = elim (dec_le fuel k) [
    | yes below ↦
        Extends-ne (walk actions fuel root) (walk actions k root) ends
          (rw (apart fuel k below) (up-grows (k - fuel) fuel root))
    | no above ↦
        up-eq (fuel - k) k root (IsStable-above k enough)
        ∙ ap (λ n. walk actions n root) (sym (apart k fuel (omega arith)))
  ]
