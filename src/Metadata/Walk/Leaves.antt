-- ===== src/Metadata/Walk/Leaves.antt =====
-- What `walk` of metadata/service.go returns: sets of actions with no next action.
use orchy.Base.{
  ℕ, zero, suc, ℤ, int_eq, Text, Option, none, some, List, [], ◌∷◌, ◌++◌, All, All-append, ◌≡◌,
  refl, Option-cases, inl, inr,
}
use orchy.Base.Map.{Map, lookup}
use orchy.Util.Slice.{merge, extend, product}
use orchy.Model.{NextMap}
use orchy.Action.{Action, base}
use orchy.Metadata.Walk.{
  WalkResult, done, crashed, out_of_fuel, ◌>>=◌, walk_group, walk_branch, walk_branches,
  visit_action, walk,
}

-- A set that is not empty and whose elements satisfy `P`.
abbrev pub IsSetOf : (ℤ → Type 0) → List ℤ → Type 0
IsSetOf P [] = ⊥
IsSetOf P (k ∷ ks) = All P (k ∷ ks)

module _ (P : ℤ → Type 0) where
  IsSetOf-append : (g h : List ℤ) → IsSetOf P g → IsSetOf P h → IsSetOf P (g ++ h)
  IsSetOf-append [] h p q = absurd p
  IsSetOf-append (k ∷ ks) [] p q = absurd q
  IsSetOf-append (k ∷ ks) (j ∷ js) p q = (p.0, All-append P ks (j ∷ js) p.1 q)

  extend-All :
      (g : List ℤ) (hs : List (List ℤ))
      → IsSetOf P g
      → All (IsSetOf P) hs
      → All (IsSetOf P) (extend g hs)
  extend-All g [] p q = tt
  extend-All g (h ∷ hs) p q = (IsSetOf-append g h p q.0, extend-All g hs p q.1)

  product-All :
      (gs hs : List (List ℤ))
      → All (IsSetOf P) gs
      → All (IsSetOf P) hs
      → All (IsSetOf P) (product gs hs)
  product-All [] hs p q = tt
  product-All (g ∷ gs) hs p q =
      All-append (IsSetOf P) (extend g hs) (product gs hs) (extend-All g hs p.0 q)
        (product-All gs hs p.1 q)

  merge-All :
      (gs hs : List (List ℤ))
      → All (IsSetOf P) gs
      → All (IsSetOf P) hs
      → All (IsSetOf P) (merge gs hs)
  unfolding merge
  merge-All [] hs p q = q
  merge-All (g ∷ gs) [] p q = p
  merge-All (g ∷ gs) (h ∷ hs) p q = product-All (g ∷ gs) (h ∷ hs) p q

  -- The sets of a result, if it is one.
  abbrev Holds : WalkResult → Type 0
  Holds (done sets) = All (IsSetOf P) sets
  Holds crashed = Unit
  Holds out_of_fuel = Unit

  Holds-bind :
      (r : WalkResult) (f : List (List ℤ) → WalkResult)
      → Holds r
      → ((sets : List (List ℤ)) → All (IsSetOf P) sets → Holds (f sets))
      → Holds (r >>= f)
  Holds-bind (done sets) f h k = k sets h
  Holds-bind crashed f h k = tt
  Holds-bind out_of_fuel f h k = tt

  module _ (call : ℤ → WalkResult) (ih : (b : ℤ) → Holds (call b)) where
    group-Holds :
        (ids : List ℤ) (out : List (List ℤ)) → All (IsSetOf P) out → Holds (walk_group call ids out)
    unfolding walk_group
    group-Holds [] out h = h
    group-Holds (b ∷ ids) out h =
        Holds-bind (call b) _ (ih b)
          (λ sets p. group-Holds ids (merge sets out) (merge-All sets out p h))

    branch-Holds : (g : Option (List ℤ)) → Holds (walk_branch call g)
    unfolding walk_branch
    branch-Holds none = tt
    branch-Holds (some []) = tt
    branch-Holds (some (b ∷ rest)) = group-Holds (b ∷ rest) [] tt

    branches_hold :
        (groups : Map Text (Option (List ℤ))) (result : List (List ℤ))
        → All (IsSetOf P) result
        → Holds (walk_branches call groups result)
    unfolding walk_branches
    branches_hold [] result h = h
    branches_hold ((event, g) ∷ groups) result h =
        Holds-bind (walk_branch call g) _ (branch-Holds g)
          (λ out p. branches_hold groups (result ++ out) (All-append (IsSetOf P) result out h p))

-- An action of the map that has no next map.
abbrev pub IsLeaf : Map ℤ Action → ℤ → Type 0
IsLeaf actions k =
    (a : ℤ) × (act : Action) × (lookup a actions ≡ some act)
    × ((base act).next_map ≡ none)
    × ((base act).id ≡ k)

visit-Holds :
    (actions : Map ℤ Action) (call : ℤ → WalkResult) (root : ℤ) (act : Action) (next : NextMap)
    → ((b : ℤ) → Holds (IsLeaf actions) (call b))
    → lookup root actions ≡ some act
    → (base act).next_map ≡ next
    → Holds (IsLeaf actions) (visit_action call (base act).id next)
visit-Holds actions call root act none ih e leaf = (((root, act, e, leaf, refl), tt), tt)
visit-Holds actions call root act (some groups) ih e next =
    branches_hold (IsLeaf actions) call ih groups [] tt

walk-Holds :
    (actions : Map ℤ Action) (fuel : ℕ) (root : ℤ) → Holds (IsLeaf actions) (walk actions fuel root)
unfolding walk
walk-Holds actions zero root = tt
walk-Holds actions (suc fuel) root = elim (Option-cases (lookup root actions)) [
  | inl e ↦ rw e tt
  | inr (act, e) ↦ rw e (
      visit-Holds actions (λ a. walk actions fuel a) root act (base act).next_map
        (walk-Holds actions fuel) e refl)
]

-- Every set of terminal actions that `walk` returns is non-empty, and each of its elements is the
-- id of a defined action with no next map.
pub walk-leaves :
    (actions : Map ℤ Action) (fuel : ℕ) (root : ℤ) (sets : List (List ℤ))
    → walk actions fuel root ≡ done sets
    → All (IsSetOf (IsLeaf actions)) sets
walk-leaves actions fuel root sets e = rw e at (walk-Holds actions fuel root)
