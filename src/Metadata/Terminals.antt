-- ===== src/Metadata/Terminals.antt =====
-- The terminal actions of a flow of GetFlow (metadata/service.go), and when the machine of such a
-- flow completes (shard/flow.go).
use orchy.Base.{
  suc, ℤ, int_eq, Text, true, Option, none, some, List, [], ◌∷◌, All, length, ◌≡◌, ◌≢◌, ap, ◌↔◌,
}
use orchy.Base.Map.{Map, insert}
use orchy.Model.{Result, ok, Workflow, NextMap, FlowContext}
use orchy.Model.Value.{Fields}
use orchy.Action.{Action, base, Libs}
use orchy.Flow.{Flow}
use orchy.Metadata.{MetadataStorage, build_actions, get_flow, validate_flow, with_terminals}
use orchy.Metadata.Valid.{IsDefined, IsNextOf}
use orchy.Metadata.Sound.{validate_flow-IsValid}
use orchy.Metadata.Walk.{WalkResult, done, crashed, out_of_fuel, walk}
use orchy.Metadata.Walk.Ends.{Ends, AreEnds}
use orchy.Metadata.Walk.Reference.{walk-AreEnds}
use orchy.Shard.Machine.{move_context}
use orchy.Shard.Machine.Complete.{IsExecuted, move_context_complete}

next-keyed : (P : ℤ → Type 0) (next : NextMap) → IsNextOf P next → next ≢ some []
next-keyed P none h = λ e. cc
next-keyed P (some []) h = absurd h
next-keyed P (some (g ∷ groups)) h = λ e. cc

flow_injective : {f g : Flow} → ◌≡◌ {A = Option (Result Flow)} (some (ok f)) (some (ok g)) → f ≡ g
flow_injective h = cc

module _ (storage : MetadataStorage) (wf : Workflow) (name id : Text)
    (known : storage.get_workflow_definition name ≡ ok wf) where
  abbrev built : Map ℤ Action
  built = build_actions wf.actions []

  with_terminals-done :
      (r : WalkResult) (fl : Flow)
      → with_terminals wf id built r ≡ some (ok fl)
      → (r ≡ done fl.terminal_actions)
  with_terminals-done (done sets) fl h =
      ap (λ (f : Flow). done f.terminal_actions) (flow_injective h)
  with_terminals-done crashed fl h = cc
  with_terminals-done out_of_fuel fl h = cc

  -- The terminal actions of the flow that GetFlow returns for an accepted workflow are exactly the
  -- sets of actions that some run from the root action executes last: in each of these runs one
  -- event happens after an action, and all actions of that event follow it. There is one at least.
  pub get_flow-AreEnds :
      (lib : Libs) (fl : Flow)
      → validate_flow lib storage wf ≡ ok tt
      → get_flow storage name id ≡ some (ok fl)
      → AreEnds (build_actions wf.actions []) wf.root_action fl.terminal_actions
  unfolding get_flow
  get_flow-AreEnds lib fl accepted h =
      let wired = (validate_flow-IsValid lib storage wf accepted).wired in
      walk-AreEnds built
        (λ a act e. next-keyed (IsDefined built) (base act).next_map (wired.next_defined a act e).1)
        (suc (length wf.actions)) wf.root_action fl.terminal_actions
        (with_terminals-done (walk built (suc (length wf.actions)) wf.root_action) fl
          (rw (known, get_flow) at h))

  -- The machine of a flow that GetFlow returned for an accepted workflow completes it exactly when,
  -- with the action counted as executed, everything is executed that some run from the root action
  -- executes last.
  pub move_context-Ends :
      (lib : Libs) (fl : Flow) (next : NextMap) (a : ℤ) (event : Text) (data_map : Option Fields)
      (c : FlowContext)
      → validate_flow lib storage wf ≡ ok tt
      → get_flow storage name id ≡ some (ok fl)
      → ((move_context fl.terminal_actions next a event data_map c).1 ≡ true) ↔ (
          (s : List ℤ) × Ends (build_actions wf.actions []) wf.root_action s
          × All (IsExecuted (insert a true c.executed_actions)) s)
  move_context-Ends lib fl next a event data_map c accepted h =
      let ends = get_flow-AreEnds lib fl accepted h in
      let complete = (move_context_complete fl.terminal_actions next a event data_map c).0 in
      (
        (λ e. let (s, inside, executed) = complete.0 e in (s, ends.sound s inside, executed)),
        (λ (s, end, executed). complete.1 (s, ends.complete s end, executed)),
      )
