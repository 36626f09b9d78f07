-- ===== src/Shard/Effect/Unmatched.antt =====
-- An action ends with an event for which its next map has no group.
use orchy.Base.{
  ℤ, int_eq, Text, text_eq, ==_refl, Bool, true, false, [], Option, none, some, contains, ◌==◌, ◌≡◌,
  refl, arith,
}
use orchy.Base.Map.{lookup, insert}
use orchy.Model.{ok, FlowContext, running}
use orchy.Model.Value.{Fields}
use orchy.Action.{Action, base, branches}
use orchy.Flow.{Flow}
use orchy.Shard.Storage.{Storage}
use orchy.Shard.Storage.Reliable.{Reliable}
use orchy.Shard.Machine.{is_complete, move_context, next_actions}
use orchy.Shard.Machine.Moves.{lookup-current}
use orchy.Shard.Container.{MetadataService, World}
use orchy.Shard.Engine.{requests, execute}
use orchy.Shard.Effect.{is_ignored}
use orchy.Shard.Effect.Read.{IsCurrent}
use orchy.Shard.Effect.Done.{view-execute}

module _ {S : Type 0} (st : Storage S) (rel : Reliable st) (md : MetadataService) (wf id : Text)
    (fl : Flow) (defined : md.get_flow wf id ≡ some (ok fl)) (w : World S) (c : FlowContext) (a : ℤ)
    (act : Action) (event : Text) (data_map : Option Fields) (resume : Bool)
    (cur : IsCurrent wf id fl w) (v : rel.view w.storage wf id ≡ some c)
    (live : is_ignored c a resume ≡ false) (known : lookup a fl.actions ≡ some act)
    (unfinished : is_complete fl.terminal_actions (insert a true c.executed_actions) ≡ false)
    (alone : (j : ℤ) → (a == j) ≡ false → lookup j c.current_action_ids ≡ none)
    (unmatched : lookup event (branches (base act).next_map) ≡ none) where
  abbrev stuck : FlowContext
  stuck = record ((move_context fl.terminal_actions (base act).next_map a event data_map c).0) {
    state = running;
  }

  goes_on : (move_context fl.terminal_actions (base act).next_map a event data_map c).1 ≡ false
  unfolding move_context
  goes_on = rw unfinished

  nothing_next : (move_context fl.terminal_actions (base act).next_map a event data_map c).2 ≡ []
  unfolding move_context next_actions
  nothing_next = rw (unfinished, unmatched)

  stuck-current : (j : ℤ) → lookup j stuck.current_action_ids ≡ none
  unfolding contains
  stuck-current j = ground (
    arith,
    nothing_next,
    alone j,
    lookup-current fl.terminal_actions (base act).next_map a event data_map c j,
  )

  -- For a storage that does not fail, and a flow that GetFlow returns and that its machine, if one
  -- is cached, runs:
  -- If the only current action ends with an event that is no key of its next map, and the flow is
  -- not complete, then the flow stays in the state running with no current action at all: a group
  -- under the key "default", if there is one, is not taken.
  pub view-execute-unmatched :
      (c' : FlowContext) × (rel.view (execute st md wf id a event data_map resume w).1.storage wf id
        ≡ some c')
      × (c'.state ≡ running)
      × ((j : ℤ) → lookup j c'.current_action_ids ≡ none)
  unfolding requests
  view-execute-unmatched = (
    stuck,
    ground (
      arith,
      ==_refl wf,
      ==_refl id,
      live,
      known,
      goes_on,
      nothing_next,
      view-execute st rel md wf id fl defined w c a event data_map resume wf id cur v,
    ),
    refl,
    stuck-current,
  )
