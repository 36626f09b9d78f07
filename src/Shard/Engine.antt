-- ===== src/Shard/Engine.antt =====
-- The type FlowEngine of shard/engine.go. Every operation is a step of the shard: the calls of the
-- storage, the container and the data collector in the order of the source. Logging is left out.
pub mod Delays
pub mod Resume
pub mod System
use orchy.Base.{
  ℤ, pos, ◌+ℤ◌, ◌*ℤ◌, int64, int_eq, int_beq, ltb_ℤ, Text, text_eq, text_beq, lit, Bool, true,
  false, not, ◌&&◌, if◌then◌else◌, Option, none, some, List, [], ◌∷◌, ◌==◌, Outcome, returned,
  panicked, Exec, pure, panic, ◌>>=◌, ◌>>◌,
}
use orchy.Base.Map.{Map, lookup, insert, keys}
use orchy.Model.{
  Result, ok, err, FlowContext, FlowState, running, failed, completed, waiting_delay, waiting_event,
  paused, unknown, ActionType, system, user, ActionExecutionRequest, ActionDefinition, RetryPolicy,
  fixed, backoff, other_policy, event_mismatch, flow_already_completed,
}
use orchy.Model.Value.{Fields}
use orchy.Action.{Action, BaseAction, base, Param, duration, text, Libs, seconds}
use orchy.Flow.{Flow, is_empty}
use orchy.Shard.Storage.{Storage, get_handler, run_handler}
use orchy.Shard.Machine.{
  FlowStateMachine, is_terminal, is_paused, validate, move_forward, change_state, save_event,
}
use orchy.Shard.Container.{
  MetadataService, World, ActionRecord, success, failure, call, record_action, store, forget, get,
  init,
}

-- The request for one action of a flow.
abbrev pub request : ℤ → BaseAction → ActionExecutionRequest
request action_id b = record {
  workflow_name = [];
  flow_id = [];
  action_id = action_id;
  action_name = b.name;
  action_type = some b.action_type;
}

-- The loop of saveContextAndDispatchAction; `none` is the panic at a missing action.
unfoldable pub requests : Map ℤ Action → List ℤ → Option (List ActionExecutionRequest)
requests actions [] = some []
requests actions (action_id ∷ ids) = elim (lookup action_id actions) [
  | none ↦ none
  | some act ↦ elim (requests actions ids) [
    | none ↦ none
    | some rest ↦ some (request action_id (base act) ∷ rest)
  ]
]

module _ {S : Type 0} (st : Storage S) (md : MetadataService) where
  abbrev pub Step : Type 0
  Step = Exec (World S) (Unit {0})

  -- A call whose error is logged at most.
  abbrev pub attempt : (S → Result (Unit {0}) × S) → Step
  attempt f = do r ← call f; pure tt

  abbrev pub on_machine : (FlowStateMachine → Step) → Result FlowStateMachine → Step
  on_machine f (err e) = pure tt
  on_machine f (ok m) = f m

  -- Get, and return on an error.
  abbrev pub with_machine : Text → Text → (FlowStateMachine → Step) → Step
  with_machine wf id f = do m ← get st md wf id; on_machine f m

  abbrev pub if_valid : Result (Unit {0}) → Step → Step
  if_valid (err e) f = pure tt
  if_valid (ok u) f = f

  -- Get and Validate, and return on an error of either.
  abbrev pub with_valid : Text → Text → ℤ → (FlowStateMachine → Step) → Step
  with_valid wf id action_id f = with_machine wf id (λ m. if_valid (validate m action_id) (f m))

  abbrev pub dispatch : Text → Text → FlowContext → Option (List ActionExecutionRequest) → Step
  dispatch wf id ctx none = panic
  dispatch wf id ctx (some actions) =
      attempt (st.save_flow_context_and_dispatch_action wf id ctx actions)

  -- saveContextAndDispatchAction; its callers log the error at most.
  unfoldable pub save_context_and_dispatch_action : Text → Text → List ℤ → Flow → FlowContext → Step
  save_context_and_dispatch_action wf id action_ids fl ctx =
      dispatch wf id ctx (requests fl.actions action_ids)

  abbrev pub run_state_handler : Text → Text → Flow → FlowState → Step
  run_state_handler wf id fl failed =
      attempt (run_handler st (get_handler fl.failure_handler) wf id)
  run_state_handler wf id fl completed =
      attempt (run_handler st (get_handler fl.success_handler) wf id)
  run_state_handler wf id fl _ = pure tt

  abbrev pub unless_running : FlowState → Step → Step
  unless_running running f = pure tt
  unless_running _ f = f

  -- changeStateWithEvent
  unfoldable pub change_state_with_event : Text → Text → FlowState → Text → Step
  change_state_with_event wf id state event = with_machine wf id λ m. do
    let changed = change_state m state
    let m' = if is_empty event then changed else save_event changed event
    store wf id m'
    attempt (st.save_flow_context wf id m'.context)
    unless_running state (forget wf id)
    run_state_handler wf id m'.flow state

  -- changeState, with which MarkComplete, MarkFailed, MarkPaused, MarkWaitingDelay and MarkRunning
  -- are defined.
  abbrev pub change_to : Text → Text → FlowState → Step
  change_to wf id state = change_state_with_event wf id state []

  unfoldable pub mark_complete : Text → Text → Step
  mark_complete wf id = change_to wf id completed

  unfoldable pub mark_failed : Text → Text → Step
  mark_failed wf id = change_to wf id failed

  unfoldable pub mark_paused : Text → Text → Step
  mark_paused wf id = change_to wf id paused

  unfoldable pub mark_waiting_delay : Text → Text → Step
  mark_waiting_delay wf id = change_to wf id waiting_delay

  unfoldable pub mark_running : Text → Text → Step
  mark_running wf id = change_to wf id running

  unfoldable pub mark_waiting_event : Text → Text → Text → Step
  mark_waiting_event wf id event = change_state_with_event wf id waiting_event event

  -- The end of execute, on what MoveForward returned.
  abbrev pub moved : Text → Text → Outcome (FlowStateMachine × Bool × List ℤ) → Step
  moved wf id panicked = panic
  moved wf id (returned (m, true, ids)) = do
    store wf id m
    attempt (st.save_flow_context wf id m.context)
    mark_complete wf id
  moved wf id (returned (m, false, ids)) = do
    let m' = change_state m running
    store wf id m'
    save_context_and_dispatch_action wf id ids m'.flow m'.context

  -- execute
  unfoldable pub execute : Text → Text → ℤ → Text → Option Fields → Bool → Step
  execute wf id action_id event data_map resume = with_valid wf id action_id λ m.
      if not resume && is_paused m.context.state
      then pure tt
      else moved wf id (move_forward m action_id event data_map)

  unfoldable pub execute_action : Text → Text → Text → ℤ → Option Fields → Step
  execute_action wf id event action_id data_map = execute wf id action_id event data_map false

  unfoldable pub execute_action_resume : Text → Text → Text → ℤ → Option Fields → Step
  execute_action_resume wf id event action_id data_map = execute wf id action_id event data_map true

  -- GetFlow
  unfoldable pub get_flow : Text → Text → Exec (World S) (Result FlowContext)
  get_flow wf id = call (st.get_flow_context wf id)

  abbrev pub started : Text → Text → Result FlowStateMachine → Exec (World S) (Result (Unit {0}))
  started wf id (err e) = pure (err e)
  started wf id (ok m) = do
    save_context_and_dispatch_action wf id (m.flow.root_action ∷ []) m.flow m.context
    pure (ok tt)

  -- Init: the error of saveContextAndDispatchAction is dropped.
  unfoldable pub init_flow : Text → Text → Fields → Exec (World S) (Result (Unit {0}))
  init_flow wf id input = do m ← init st md wf id input; started wf id m
