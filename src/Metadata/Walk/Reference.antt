-- ===== src/Metadata/Walk/Reference.antt =====
-- `walk` of metadata/service.go returns exactly the terminal sets that the meaning of a flow names.
use mathlib.Core.List.{Memᴰ}
use mathlib.Core.List.Memᴰ
use orchy.Base.{
  ℕ, zero, suc, ℤ, int_eq, Text, Option, none, some, List, [], ◌∷◌, ◌++◌, ◌≡◌, ◌≢◌, refl, sym, ap,
  ◌∙◌, ◌⊎◌, inl, inr, Option-cases,
}
use orchy.Base.Map.{Map, lookup}
use orchy.Model.{NextMap}
use orchy.Action.{Action, base}
use orchy.Metadata.Walk.{WalkResult, done, crashed, walk_branch, walk_branches, visit_action, walk}
use orchy.Metadata.Walk.Ends.{
  Ends, leaf, branch, Joins, AreEnds, bind-done, done_injective, branch_ends,
}

some_member : (sets : List (List ℤ)) → sets ≢ [] → (s : List ℤ) × Memᴰ s sets
some_member [] h = absurd (h refl)
some_member (s ∷ sets) h = (s, Memᴰ.head refl)

ne-nil_of_member : (sets : List (List ℤ)) (s : List ℤ) → Memᴰ s sets → sets ≢ []
ne-nil_of_member [] s inside = elim inside [ ]
ne-nil_of_member (t ∷ sets) s inside = cc

some_action : {x y : Action} → some x ≡ some y → x ≡ y
some_action h = cc

some_groups : {x y : Map Text (Option (List ℤ))} → ◌≡◌ {A = NextMap} (some x) (some y) → x ≡ y
some_groups h = cc

none-ne-some : {x : Map Text (Option (List ℤ))} → ◌≢◌ {A = NextMap} (some x) none
none-ne-some h = cc

crashed-ne-done : {sets : List (List ℤ)} → crashed ≢ done sets
crashed-ne-done h = cc

module _ (actions : Map ℤ Action) where
  module _ (call : ℤ → WalkResult)
      (ih : (b : ℤ) (sets : List (List ℤ)) → call b ≡ done sets → AreEnds actions b sets) where
    branches_sound :
        (groups : Map Text (Option (List ℤ))) (result sets : List (List ℤ)) (s : List ℤ)
        → walk_branches call groups result ≡ done sets
        → Memᴰ s sets
        → Memᴰ s result
          ⊎ ((event : Text) × (ids : List ℤ) × Memᴰ (event, some ids) groups
              × Joins actions ids [] s)
    unfolding walk_branches
    branches_sound [] result sets s h inside = inl (rw (← done_injective h) at inside)
    branches_sound ((event, g) ∷ groups) result sets s h inside =
        let (out, ran, rest) =
          bind-done (walk_branch call g) (λ o. walk_branches call groups (result ++ o)) sets h in
        elim (branches_sound groups (result ++ out) sets s rest inside) [
          | inl met ↦ elim (Memᴰ.append_cases result met) [
            | inl old ↦ inl old
            | inr new ↦
                let (ids, e, joins) = (branch_ends actions call ih g out ran).1 s new in
                inr
                  (event, ids, Memᴰ.head (ap (λ (o : Option (List ℤ)). (event, o)) (sym e)), joins)
          ]
          | inr (event', ids, there, joins) ↦ inr (event', ids, Memᴰ.tail there, joins)
        ]

    branches_keep :
        (groups : Map Text (Option (List ℤ))) (result sets : List (List ℤ)) (s : List ℤ)
        → walk_branches call groups result ≡ done sets
        → Memᴰ s result
        → Memᴰ s sets
    unfolding walk_branches
    branches_keep [] result sets s h inside = rw (← done_injective h) inside
    branches_keep ((event, g) ∷ groups) result sets s h inside =
        let (out, ran, rest) =
          bind-done (walk_branch call g) (λ o. walk_branches call groups (result ++ o)) sets h in
        branches_keep groups (result ++ out) sets s rest (Memᴰ.append_left out inside)

    branches_complete :
        (groups : Map Text (Option (List ℤ))) (result sets : List (List ℤ)) (s : List ℤ)
        (event : Text) (ids : List ℤ)
        → walk_branches call groups result ≡ done sets
        → Memᴰ (event, some ids) groups
        → Joins actions ids [] s
        → Memᴰ s sets
    unfolding walk_branches
    branches_complete [] result sets s event ids h there joins = elim there [ ]
    branches_complete ((event', g) ∷ groups) result sets s event ids h there joins =
        let (out, ran, rest) =
          bind-done (walk_branch call g) (λ o. walk_branches call groups (result ++ o)) sets h in
        elim (Memᴰ.cases_cons there) [
          | inl e ↦
              let same : g ≡ some ids = sym (ap (λ (p : Text × Option (List ℤ)). p.1) e) in
              branches_keep groups (result ++ out) sets s rest (
                Memᴰ.append_right result
                  ((branch_ends actions call ih g out ran).2 ids s same joins))
          | inr later ↦ branches_complete groups (result ++ out) sets s event ids rest later joins
        ]

    branches-ne-nil :
        (groups : Map Text (Option (List ℤ))) (sets : List (List ℤ))
        → groups ≢ []
        → walk_branches call groups [] ≡ done sets
        → sets ≢ []
    unfolding walk_branches
    branches-ne-nil [] sets full h = absurd (full refl)
    branches-ne-nil ((event, g) ∷ groups) sets full h =
        let (out, ran, rest) =
          bind-done (walk_branch call g) (λ o. walk_branches call groups ([] ++ o)) sets h in
        let (s, inside) = some_member out (branch_ends actions call ih g out ran).0 in
        ne-nil_of_member sets s (branches_keep groups out sets s rest inside)

    same_next :
        (a : ℤ) {act act' : Action} {next next' : NextMap}
        → lookup a actions ≡ some act
        → (base act).next_map ≡ next
        → lookup a actions ≡ some act'
        → (base act').next_map ≡ next'
        → (act' ≡ act) × (next' ≡ next)
    same_next a e e' f f' =
        let same = some_action (sym f ∙ e) in (same, sym f' ∙ ap (λ x. (base x).next_map) same ∙ e')

    leaf_complete :
        (a : ℤ) (act : Action) (s : List ℤ)
        → lookup a actions ≡ some act
        → (base act).next_map ≡ none
        → Ends actions a s
        → Memᴰ s (((base act).id ∷ []) ∷ [])
    leaf_complete a act _ there e (leaf act' there' e') =
        Memᴰ.head (ap (λ (x : Action). (base x).id ∷ []) (same_next a there e there' e').0)
    leaf_complete a act s there e (branch act' groups event ids there' e' met joins) =
        absurd (none-ne-some (same_next a there e there' e').1)

    branch_complete :
        (a : ℤ) (act : Action) (groups : Map Text (Option (List ℤ))) (sets : List (List ℤ))
        (s : List ℤ)
        → lookup a actions ≡ some act
        → (base act).next_map ≡ some groups
        → walk_branches call groups [] ≡ done sets
        → Ends actions a s
        → Memᴰ s sets
    branch_complete a act groups sets _ there e h (leaf act' there' e') =
        absurd (none-ne-some (sym (same_next a there e there' e').1))
    branch_complete a act groups sets s there e h
          (branch act' groups' event ids there' e' met joins) =
        branches_complete groups [] sets s event ids h
          (rw (some_groups (same_next a there e there' e').1) at met) joins

    visit-AreEnds :
        (a : ℤ) (act : Action) (sets : List (List ℤ)) (next : NextMap)
        → lookup a actions ≡ some act
        → (base act).next_map ≡ next
        → next ≢ some []
        → visit_action call (base act).id next ≡ done sets
        → AreEnds actions a sets
    visit-AreEnds a act sets none there e keyed h = rw (← done_injective h) (record {
      full = λ empty. cc;
      sound = λ s inside. rw (Memᴰ.eq_of_singleton inside) (leaf act there e);
      complete = λ s. leaf_complete a act s there e;
    })
    visit-AreEnds a act sets (some groups) there e keyed h = record {
      full = branches-ne-nil groups sets (λ empty. keyed (ap some empty)) h;
      sound = λ s inside. elim (branches_sound groups [] sets s h inside) [
        | inl old ↦ elim old [ ]
        | inr (event, ids, met, joins) ↦ branch act groups event ids there e met joins
      ];
      complete = λ s. branch_complete a act groups sets s there e h;
    }

  -- From every action, with whatever fuel `walk` comes to a result: the sets of this result are
  -- exactly the terminal sets of the action, and there is one, if no next map is empty.
  pub walk-AreEnds :
      (keyed : (a : ℤ) (act : Action) → lookup a actions ≡ some act → (base act).next_map ≢ some [])
      (fuel : ℕ) (root : ℤ) (sets : List (List ℤ))
      → walk actions fuel root ≡ done sets
      → AreEnds actions root sets
  unfolding walk
  walk-AreEnds keyed zero root sets h = cc
  walk-AreEnds keyed (suc fuel) root sets h = elim (Option-cases (lookup root actions)) [
    | inl e ↦ absurd (crashed-ne-done (rw e at h))
    | inr (act, e) ↦
        visit-AreEnds (λ a. walk actions fuel a) (walk-AreEnds keyed fuel) root act sets
          (base act).next_map e refl (keyed root act e) (rw e at h)
  ]
