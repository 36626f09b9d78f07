-- ===== src/Shard/Effect/Dispatch.antt =====
-- The actions that follow are handed over to the executors.
use orchy.Base.{
  ℤ, int_eq, Text, text_eq, ==_refl, Bool, true, false, ◌&&◌, not, List, [], ◌∷◌, contains, Option,
  some, returned, ◌≡◌, arith, if◌then◌else◌, pure, Option-cases, inl, inr,
}
use orchy.Base.Map.{Map, lookup}
use orchy.Model.{ok, FlowContext, ActionExecutionRequest, running}
use orchy.Model.Value.{Fields}
use orchy.Action.{Action, base}
use orchy.Flow.{Flow}
use orchy.Shard.Storage.{Storage}
use orchy.Shard.Storage.Reliable.{Reliable, same, targets}
use orchy.Shard.Machine.{
  FlowStateMachine, is_paused, validate, move_forward, move_context, change_state,
}
use orchy.Shard.Container.{MetadataService, World, call, store}
use orchy.Shard.Engine.{if_valid, moved, save_context_and_dispatch_action, requests, execute}
use orchy.Shard.Effect.{is_ignored}
use orchy.Shard.Effect.Read.{IsCurrent, get_lem}

-- The requests of a dispatch are for the listed actions, in their order.
pub targets-requests :
    (actions : Map ℤ Action) (ids : List ℤ) (rs : List ActionExecutionRequest)
    → requests actions ids ≡ some rs
    → targets rs ≡ ids
unfolding requests
targets-requests actions [] rs h = ground arith
targets-requests actions (k ∷ ids) rs h = elim (Option-cases (lookup k actions)) [
  | inl e ↦ ground arith
  | inr (act, e) ↦ elim (Option-cases (requests actions ids)) [
    | inl e' ↦ ground arith
    | inr (rest, e') ↦ ground (arith, targets-requests actions ids rest e')
  ]
]

module _ {S : Type 0} (st : Storage S) (rel : Reliable st) (md : MetadataService)
    (wf id : Text) where
  same_self : same wf id wf id ≡ true
  same_self = rw (==_refl wf, ==_refl id)

  moved_pending :
      (w : World S) (m : FlowStateMachine) (ids : List ℤ) (rs : List ActionExecutionRequest) (k : ℤ)
      → requests m.flow.actions ids ≡ some rs
      → contains ids k ≡ true
      → rel.pending (moved st md wf id (returned (m, false, ids)) w).1.storage wf id k ≡ true
  unfolding store call change_state save_context_and_dispatch_action
  moved_pending w m ids rs k e inside =
      let found : contains (targets rs) k ≡ true =
        rw (targets-requests m.flow.actions ids rs e) inside in
      rw e (
        ground (
          arith,
          same_self,
          found,
          rel.pending-dispatch wf id wf id k (record m.context { state = running }) rs w.storage,
        ))

  forward_pending :
      (w : World S) (m : FlowStateMachine) (a : ℤ) (event : Text) (data_map : Option Fields)
      (act : Action) (rs : List ActionExecutionRequest) (k : ℤ)
      → lookup a m.flow.actions ≡ some act
      → (x : FlowContext × Bool × List ℤ)
      → move_context m.flow.terminal_actions (base act).next_map a event data_map m.context ≡ x
      → x.1 ≡ false
      → requests m.flow.actions x.2 ≡ some rs
      → contains x.2 k ≡ true
      → rel.pending (moved st md wf id (move_forward m a event data_map) w).1.storage wf id k ≡ true
  unfolding move_forward
  forward_pending w m a event data_map act rs k e x made more reqs inside =
      rw (e, move_forward, made, more)
        (moved_pending w (record m { context = x.0 }) x.2 rs k reqs inside)

  guarded_pending :
      (w : World S) (m : FlowStateMachine) (a : ℤ) (event : Text) (data_map : Option Fields)
      (resume : Bool) (k : ℤ)
      → is_ignored m.context a resume ≡ false
      → rel.pending (moved st md wf id (move_forward m a event data_map) w).1.storage wf id k ≡ true
      → rel.pending
          (if_valid st md
            (validate m a)
            (if not resume && is_paused m.context.state
              then pure tt
              else moved st md wf id (move_forward m a event data_map))
            w).1.storage
          wf
          id
          k
        ≡ true
  unfolding validate
  guarded_pending w m a event data_map resume k live p = ground arith

  module _ (fl : Flow) (defined : md.get_flow wf id ≡ some (ok fl)) where
    -- For a storage that does not fail, and a flow that GetFlow returns and that its machine, if one
    -- is cached, runs:
    -- If the result of an action is not ignored and does not complete the flow, and the actions
    -- that follow are defined, then each of them is in a queue afterwards.
    pub pending-execute :
        (w : World S) (c : FlowContext) (a : ℤ) (event : Text) (data_map : Option Fields)
        (resume : Bool) (act : Action) (rs : List ActionExecutionRequest) (k : ℤ)
        → IsCurrent wf id fl w
        → rel.view w.storage wf id ≡ some c
        → is_ignored c a resume ≡ false
        → lookup a fl.actions ≡ some act
        → (after : FlowContext × Bool × List ℤ)
        → move_context fl.terminal_actions (base act).next_map a event data_map c ≡ after
        → after.1 ≡ false
        → requests fl.actions after.2 ≡ some rs
        → contains after.2 k ≡ true
        → rel.pending (execute st md wf id a event data_map resume w).1.storage wf id k ≡ true
    unfolding execute
    pending-execute w c a event data_map resume act rs k cur v live e after made more reqs inside =
        let (m, w', got, ec, ef, es, em) = get_lem st rel md wf id fl defined w c cur v in
        rw got (
          guarded_pending w' m a event data_map resume k (rw ec live) (
            forward_pending w' m a event data_map act rs k (rw ef e) after (rw (ec, ef) made) more
              (rw ef reqs) inside))
