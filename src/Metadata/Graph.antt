-- ===== src/Metadata/Graph.antt =====
-- When GetFlow of metadata/service.go returns a flow.
use orchy.Base.{
  ℕ, suc, ◌+◌, ◌<◌, ◌≤◌, ℤ, int_eq, Text, Option, none, some, List, [], ◌∷◌, All, length, ◌≡◌, ◌≢◌,
  refl, ◌∙◌, arith, ◌⊎◌,
}
use orchy.Base.Map.{Map, lookup, insert}
use orchy.Model.{ok, ActionDef, Workflow, NextMap}
use orchy.Action.{Action, base, Libs}
use orchy.Flow.{Flow}
use orchy.Metadata.{
  MetadataStorage, build_action, build_actions, get_flow, validate_flow, handler_or_noop,
  with_terminals,
}
use orchy.Metadata.Walk.{WalkResult, done, crashed, out_of_fuel, walk}
use orchy.Metadata.Walk.Total.{IsGraph, IsBelow, IsGroup, IsNext, walk_ends}
use orchy.Metadata.Walk.Fuel.{walk_fuel}
use orchy.Metadata.Walk.Leaves.{IsSetOf, IsLeaf, walk-leaves}
use orchy.Metadata.Walk.Cycle.{Leads, walk-cycle}
use orchy.Metadata.Valid.{IsDefined, IsGroupOf, IsNextOf}
use orchy.Metadata.Sound.{IsWired, validate_flow-IsValid}

length-insert : {V : Type 0} (k : ℤ) (v : V) (m : Map ℤ V) → length (insert k v m) ≤ suc (length m)
unfolding insert
length-insert k v [] = omega arith
length-insert k v ((j, w) ∷ m) = ground (arith, length-insert k v m)

length-build_actions :
    (defs : List ActionDef) (m : Map ℤ Action)
    → length (build_actions defs m) ≤ length defs + length m
unfolding build_actions
length-build_actions [] m = omega arith
length-build_actions (d ∷ defs) m = omega (
  arith,
  length-build_actions defs (insert d.id (build_action d) m),
  length-insert d.id (build_action d) m,
)

-- The ranks of the actions of a group are below `r`, and there is one at least.
abbrev pub FallsTo : (ℤ → ℕ) → ℕ → Option (List ℤ) → Type 0
FallsTo rank r none = Unit
FallsTo rank r (some []) = ⊥
FallsTo rank r (some (b ∷ ids)) = All (λ k. rank k < r) (b ∷ ids)

abbrev pub NextFallsTo : (ℤ → ℕ) → ℕ → NextMap → Type 0
NextFallsTo rank r none = Unit
NextFallsTo rank r (some groups) = All (λ (g : Text × Option (List ℤ)). FallsTo rank r g.1) groups

-- No group of next actions is empty, and the ranks fall along every edge, so that there is no cycle.
pub record IsAcyclic (actions : Map ℤ Action) (rank : ℤ → ℕ) : Type 0 where
  pub falls :
      (a : ℤ) (act : Action)
      → lookup a actions ≡ some act
      → NextFallsTo rank (rank a) (base act).next_map

module _ (actions : Map ℤ Action) (rank : ℤ → ℕ) where
  All-IsBelow :
      (r : ℕ) (ids : List ℤ)
      → All (λ k. rank k < r) ids
      → All (IsDefined actions) ids
      → All (IsBelow actions rank r) ids
  All-IsBelow r [] h k = tt
  All-IsBelow r (b ∷ ids) h k = ((h.0, k.0), All-IsBelow r ids h.1 k.1)

  FallsTo-IsGroup :
      (r : ℕ) (g : Option (List ℤ))
      → FallsTo rank r g
      → IsGroupOf (IsDefined actions) g
      → IsGroup actions rank r g
  FallsTo-IsGroup r none h k = absurd k
  FallsTo-IsGroup r (some []) h k = absurd h
  FallsTo-IsGroup r (some (b ∷ ids)) h k = All-IsBelow r (b ∷ ids) h k

  groups_next :
      (r : ℕ) (groups : Map Text (Option (List ℤ)))
      → All (λ (g : Text × Option (List ℤ)). FallsTo rank r g.1) groups
      → All (λ (g : Text × Option (List ℤ)). IsGroupOf (IsDefined actions) g.1) groups
      → All (λ (g : Text × Option (List ℤ)). IsGroup actions rank r g.1) groups
  groups_next r [] h k = tt
  groups_next r ((e, g) ∷ groups) h k = (FallsTo-IsGroup r g h.0 k.0, groups_next r groups h.1 k.1)

  NextFallsTo-IsNext :
      (r : ℕ) (next : NextMap)
      → NextFallsTo rank r next
      → IsNextOf (IsDefined actions) next
      → IsNext actions rank r next
  NextFallsTo-IsNext r none h k = tt
  NextFallsTo-IsNext r (some []) h k = tt
  NextFallsTo-IsNext r (some (g ∷ groups)) h k = groups_next r (g ∷ groups) h k

module _ (storage : MetadataStorage) (wf : Workflow) (name id : Text)
    (known : storage.get_workflow_definition name ≡ ok wf) where
  abbrev actions_of : Map ℤ Action
  actions_of = build_actions wf.actions []

  few : length actions_of < suc (length wf.actions)
  few = omega (arith, length-build_actions wf.actions [])

  walked :
      (rank : ℤ → ℕ)
      → IsWired wf
      → IsAcyclic actions_of rank
      → (sets : List (List ℤ)) × (walk actions_of (suc (length wf.actions)) wf.root_action
          ≡ done sets)
  walked rank valid acyclic =
      let graph : IsGraph actions_of rank = record {
        falls = λ a act e.
            NextFallsTo-IsNext actions_of rank (rank a) (base act).next_map (acyclic.falls a act e)
              (valid.next_defined a act e).1;
      } in
      let (sets, e) =
        walk_ends actions_of rank (suc (rank wf.root_action)) wf.root_action graph
          (omega arith, valid.root_defined) in
      (
        sets,
        walk_fuel actions_of (suc (rank wf.root_action)) (suc (length wf.actions)) wf.root_action
              few (rw e (λ h. cc))
            ∙ e,
      )

  -- Of a workflow whose actions are wired, if no group of next actions is empty and there is no
  -- cycle, GetFlow returns a flow: with the root action and the actions of the definition, and with
  -- sets of terminal actions each of which is a non-empty set of actions with no next map.
  pub get_flow-of_wired :
      (rank : ℤ → ℕ)
      → IsWired wf
      → IsAcyclic actions_of rank
      → (fl : Flow) × (get_flow storage name id ≡ some (ok fl))
        × (fl.root_action ≡ wf.root_action)
        × (fl.actions ≡ actions_of)
        × All (IsSetOf (IsLeaf actions_of)) fl.terminal_actions
  unfolding get_flow
  get_flow-of_wired rank wired acyclic =
      let (sets, e) = walked rank wired acyclic in
      let fl : Flow = record {
        id = id;
        root_action = wf.root_action;
        actions = actions_of;
        failure_handler = handler_or_noop wf.on_failure;
        success_handler = handler_or_noop wf.on_success;
        terminal_actions = sets;
      } in
      (
        fl,
        rw (known, get_flow) (rw e),
        refl,
        refl,
        walk-leaves actions_of (suc (length wf.actions)) wf.root_action sets e,
      )

  -- Of a workflow that ValidateFlow accepts, if no group of next actions is empty and there is no
  -- cycle, GetFlow returns a flow: with the root action and the actions of the definition, and with
  -- sets of terminal actions each of which is a non-empty set of actions with no next map.
  pub get_flow_total :
      (lib : Libs) (rank : ℤ → ℕ)
      → validate_flow lib storage wf ≡ ok tt
      → IsAcyclic actions_of rank
      → (fl : Flow) × (get_flow storage name id ≡ some (ok fl))
        × (fl.root_action ≡ wf.root_action)
        × (fl.actions ≡ actions_of)
        × All (IsSetOf (IsLeaf actions_of)) fl.terminal_actions
  get_flow_total lib rank accepted acyclic =
      get_flow-of_wired rank (validate_flow-IsValid lib storage wf accepted).wired acyclic

  no_flow :
      (r : WalkResult)
      → ((sets : List (List ℤ)) → r ≢ done sets)
      → with_terminals wf id actions_of r ≡ none
  no_flow (done sets) h = absurd (h sets refl)
  no_flow crashed h = refl
  no_flow out_of_fuel h = refl

  -- If an action on a cycle can be reached from the root, or is the root, then GetFlow returns
  -- neither a flow nor an error: it panics, or its recursion has no end.
  pub get_flow-cycle :
      (a : ℤ)
      → (wf.root_action ≡ a) ⊎ Leads actions_of wf.root_action a
      → Leads actions_of a a
      → get_flow storage name id ≡ none
  unfolding get_flow
  get_flow-cycle a reached cycle =
      rw (known, get_flow)
        (no_flow (walk actions_of (suc (length wf.actions)) wf.root_action) (λ sets.
          walk-cycle actions_of wf.root_action a (suc (length wf.actions)) sets reached cycle))
