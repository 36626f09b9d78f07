-- ===== src/Metadata/Walk/Ends.antt =====
-- The terminal sets of an action, by the meaning of a flow; and that one group of `walk` of
-- metadata/service.go comes to them.
use mathlib.Core.List.{Memᴰ}
use mathlib.Core.List.Memᴰ
use orchy.Base.{ℤ, int_eq, Text, Option, none, some, List, [], ◌∷◌, ◌++◌, ◌≡◌, ◌≢◌, refl}
use orchy.Base.Map.{Map, lookup}
use orchy.Util.Slice.{merge}
use orchy.Util.Slice.Members.{seeds, merge_sound, merge_complete, merge-ne-nil}
use orchy.Action.{Action, base}
use orchy.Metadata.Walk.{WalkResult, done, crashed, out_of_fuel, ◌>>=◌, walk_group, walk_branch}

mutual
  -- The actions that are executed last, in some run from `a`: an action with no next map is one
  -- itself; of any other one event happens, after which all actions of that event's group are run.
  pub data Ends (actions : Map ℤ Action) : ℤ → List ℤ → Type 0 where
    leaf :
        {a : ℤ} (act : Action)
        → lookup a actions ≡ some act
        → (base act).next_map ≡ none
        → Ends actions a ((base act).id ∷ [])
    branch :
        {a : ℤ} {s : List ℤ} (act : Action) (groups : Map Text (Option (List ℤ))) (event : Text)
        (ids : List ℤ)
        → lookup a actions ≡ some act
        → (base act).next_map ≡ some groups
        → Memᴰ (event, some ids) groups
        → Joins actions ids [] s
        → Ends actions a s

  -- The ends of runs from each action of a group, the later ones in front of the earlier.
  pub data Joins (actions : Map ℤ Action) : List ℤ → List ℤ → List ℤ → Type 0 where
    all : {s : List ℤ} → Joins actions [] s s
    also :
        {b : ℤ} {ids s t u : List ℤ}
        → Ends actions b t
        → Joins actions ids (t ++ s) u
        → Joins actions (b ∷ ids) s u

pub bind-done :
    (r : WalkResult) (f : List (List ℤ) → WalkResult) (sets : List (List ℤ))
    → (r >>= f) ≡ done sets
    → (out : List (List ℤ)) × (r ≡ done out) × (f out ≡ done sets)
bind-done (done out) f sets h = (out, refl, h)
bind-done crashed f sets h = cc
bind-done out_of_fuel f sets h = cc

pub done_injective : {sets out : List (List ℤ)} → done sets ≡ done out → sets ≡ out
done_injective h = cc

some_injective : {x y : List ℤ} → some x ≡ some y → x ≡ y
some_injective h = cc

seeds-full : (sets : List (List ℤ)) → sets ≢ [] → seeds sets ≡ sets
seeds-full [] h = absurd (h refl)
seeds-full (s ∷ sets) h = refl

module _ (actions : Map ℤ Action) where
  -- A result of `walk` from `a`: it is not empty, and has exactly the ends from `a`.
  pub record AreEnds (a : ℤ) (sets : List (List ℤ)) : Type 0 where
    pub full : sets ≢ []
    pub sound : (s : List ℤ) → Memᴰ s sets → Ends actions a s
    pub complete : (s : List ℤ) → Ends actions a s → Memᴰ s sets

  module _ (call : ℤ → WalkResult)
      (ih : (b : ℤ) (sets : List (List ℤ)) → call b ≡ done sets → AreEnds b sets) where
    group_sound :
        (ids : List ℤ) (out sets : List (List ℤ)) (s : List ℤ)
        → walk_group call ids out ≡ done sets
        → Memᴰ s (seeds sets)
        → (t : List ℤ) × Memᴰ t (seeds out) × Joins actions ids t s
    unfolding walk_group
    group_sound [] out sets s h inside = (s, rw (← done_injective h) at inside, all)
    group_sound (b ∷ ids) out sets s h inside =
        let (outs, called, rest) =
          bind-done (call b) (λ o. walk_group call ids (merge o out)) sets h in
        let ends = ih b outs called in
        let (u, there, joins) = group_sound ids (merge outs out) sets s rest inside in
        let (g, t, from, seed, e) =
          merge_sound outs out u ends.full
            (rw (seeds-full (merge outs out) (merge-ne-nil outs out ends.full)) at there) in
        (t, seed, also (ends.sound g from) (rw e at joins))

    group_complete :
        (ids : List ℤ) (out sets : List (List ℤ)) {s t : List ℤ}
        → walk_group call ids out ≡ done sets
        → Memᴰ t (seeds out)
        → Joins actions ids t s
        → Memᴰ s (seeds sets)
    unfolding walk_group
    group_complete [] out sets h inside all = rw (← done_injective h) inside
    group_complete (b ∷ ids) out sets h inside (also {t} end joins) =
        let (outs, called, rest) =
          bind-done (call b) (λ o. walk_group call ids (merge o out)) sets h in
        let ends = ih b outs called in
        group_complete ids (merge outs out) sets rest
          (rw (seeds-full (merge outs out) (merge-ne-nil outs out ends.full))
            (merge_complete outs out t _ (ends.complete t end) inside))
          joins

    group-ne-nil :
        (ids : List ℤ) (out sets : List (List ℤ))
        → out ≢ []
        → walk_group call ids out ≡ done sets
        → sets ≢ []
    unfolding walk_group
    group-ne-nil [] out sets full h = rw (← done_injective h) full
    group-ne-nil (b ∷ ids) out sets full h =
        let (outs, called, rest) =
          bind-done (call b) (λ o. walk_group call ids (merge o out)) sets h in
        group-ne-nil ids (merge outs out) sets (merge-ne-nil outs out (ih b outs called).full) rest

    first-ne-nil :
        (b : ℤ) (ids : List ℤ) (sets : List (List ℤ))
        → walk_group call (b ∷ ids) [] ≡ done sets
        → sets ≢ []
    unfolding walk_group
    first-ne-nil b ids sets h =
        let (outs, called, rest) =
          bind-done (call b) (λ o. walk_group call ids (merge o [])) sets h in
        group-ne-nil ids (merge outs []) sets (merge-ne-nil outs [] (ih b outs called).full) rest

    -- What one group of a next map comes to.
    pub branch_ends :
        (group : Option (List ℤ)) (sets : List (List ℤ))
        → walk_branch call group ≡ done sets
        → (sets ≢ [])
          × ((s : List ℤ)
              → Memᴰ s sets
              → (ids : List ℤ) × (group ≡ some ids) × Joins actions ids [] s)
          × ((ids : List ℤ) (s : List ℤ) → group ≡ some ids → Joins actions ids [] s → Memᴰ s sets)
    unfolding walk_branch
    branch_ends none sets h = cc
    branch_ends (some []) sets h = cc
    branch_ends (some (b ∷ ids)) sets h =
        let full = first-ne-nil b ids sets h in
        let same = seeds-full sets full in
        (
          full,
          (λ s inside.
              let (t, seed, joins) = group_sound (b ∷ ids) [] sets s h (rw same inside) in
              (b ∷ ids, refl, rw (Memᴰ.eq_of_singleton seed) at joins)),
          (λ ids' s e joins. rw same at (
              group_complete (b ∷ ids) [] sets {s = s} {t = []} h (Memᴰ.head refl)
                (rw (some_injective e) joins))),
        )
