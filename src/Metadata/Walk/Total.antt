-- ===== src/Metadata/Walk/Total.antt =====
-- On a graph with no cycle the recursion `walk` of metadata/service.go comes to an end.
use orchy.Base.{
  ℕ, zero, suc, ◌<◌, ℤ, int_eq, Text, Option, none, some, List, [], ◌∷◌, ◌++◌, All, ◌≡◌, refl,
  arith,
}
use orchy.Base.Map.{Map, lookup}
use orchy.Util.Slice.{merge}
use orchy.Model.{NextMap}
use orchy.Action.{Action, base}
use orchy.Metadata.Walk.{
  WalkResult, done, ◌>>=◌, walk_group, walk_branch, walk_branches, visit_action, walk,
}

module _ (actions : Map ℤ Action) (rank : ℤ → ℕ) where
  -- A next action: it is defined, and its rank is below.
  abbrev pub IsBelow : ℕ → ℤ → Type 0
  IsBelow r b = (rank b < r) × ((act : Action) × (lookup b actions ≡ some act))

  -- A group of next actions: it is not empty.
  abbrev pub IsGroup : ℕ → Option (List ℤ) → Type 0
  IsGroup r none = ⊥
  IsGroup r (some []) = ⊥
  IsGroup r (some (b ∷ rest)) = All (IsBelow r) (b ∷ rest)

  abbrev pub IsNext : ℕ → NextMap → Type 0
  IsNext r none = Unit
  IsNext r (some groups) = All (λ (g : Text × Option (List ℤ)). IsGroup r g.1) groups

  -- The graph of a workflow: every next action is defined, no group is empty, and the ranks fall
  -- along every edge, so that there is no cycle.
  pub record IsGraph : Type 0 where
    pub falls :
        (a : ℤ) (act : Action) → lookup a actions ≡ some act → IsNext (rank a) (base act).next_map

  abbrev Ends : WalkResult → Type 0
  Ends r = (sets : List (List ℤ)) × (r ≡ done sets)

  Ends-bind :
      (r : WalkResult) (f : List (List ℤ) → WalkResult)
      → Ends r
      → ((sets : List (List ℤ)) → Ends (f sets))
      → Ends (r >>= f)
  Ends-bind r f (sets, e) k = rw e (k sets)

  module _ (call : ℤ → WalkResult) (r : ℕ) (ih : (b : ℤ) → IsBelow r b → Ends (call b)) where
    group-Ends :
        (ids : List ℤ) (out : List (List ℤ)) → All (IsBelow r) ids → Ends (walk_group call ids out)
    unfolding walk_group
    group-Ends [] out h = (out, refl)
    group-Ends (b ∷ ids) out h =
        Ends-bind (call b) _ (ih b h.0) (λ sets. group-Ends ids (merge sets out) h.1)

    branch-Ends : (g : Option (List ℤ)) → IsGroup r g → Ends (walk_branch call g)
    unfolding walk_branch
    branch-Ends none h = absurd h
    branch-Ends (some []) h = absurd h
    branch-Ends (some (b ∷ rest)) h = group-Ends (b ∷ rest) [] h

    branches_end :
        (groups : Map Text (Option (List ℤ))) (result : List (List ℤ))
        → All (λ (g : Text × Option (List ℤ)). IsGroup r g.1) groups
        → Ends (walk_branches call groups result)
    unfolding walk_branches
    branches_end [] result h = (result, refl)
    branches_end ((event, g) ∷ groups) result h =
        Ends-bind (walk_branch call g) _ (branch-Ends g h.0)
          (λ out. branches_end groups (result ++ out) h.1)

    visit-Ends : (id : ℤ) (next : NextMap) → IsNext r next → Ends (visit_action call id next)
    visit-Ends id none h = ((id ∷ []) ∷ [], refl)
    visit-Ends id (some groups) h = branches_end groups [] h

  -- From a defined action of the graph, with more fuel than the action's rank, `walk` returns.
  pub walk_ends :
      (fuel : ℕ) (root : ℤ)
      → IsGraph
      → IsBelow fuel root
      → (sets : List (List ℤ)) × (walk actions fuel root ≡ done sets)
  unfolding walk
  walk_ends zero root g h = absurd (omega arith)
  walk_ends (suc fuel) root g (low, found) = rw found.1 (
      visit-Ends (λ a. walk actions fuel a) (rank root)
        (λ b below. walk_ends fuel b g (omega arith, below.1)) (base found.0).id
        (base found.0).next_map (g.falls root found.0 found.1))
