-- ===== src/Executor/Users.antt =====
-- The executor of user actions (shard/executor/user_action_executor.go): it resolves an action's
-- parameters and pushes the action into the queue that the workers poll.
pub mod HandOut
use orchy.Base.{
  ℤ, int_eq, Text, lit, Bool, true, false, Option, none, some, List, [], ◌∷◌, returned, Exec, pure,
  panic, ◌>>=◌, ◌>>◌, int32,
}
use orchy.Base.Map.{lookup}
use orchy.Model.{Result, ok, err, FlowContext, ActionExecutionRequest}
use orchy.Model.Value.{Fields}
use orchy.Util.ParamResolver.{resolve_input_params}
use orchy.Action.{Action, base, Libs}
use orchy.Flow.{Flow}
use orchy.Shard.Storage.{Storage}
use orchy.Shard.Container.{MetadataService, World}
use orchy.Persistence.Queue.{WorkerAction}

-- The interface ExternalQueue of shard/shard.go, over the state Q of what implements it.
pub record ExternalQueue (Q : Type 0) : Type 0 where
  pub push : WorkerAction → Q → Result (Unit {0}) × Q
  pub poll : Text → ℤ → Q → Result (List WorkerAction) × Q

-- A shard: what its engine works on, and its queue for the workers.
pub record ShardState (S : Type 0) (Q : Type 0) : Type 0 where
  pub world : World S
  pub queue : Q

module _ {S Q : Type 0} where
  -- A step of the engine.
  unfoldable pub engine : {A : Type 0} → Exec (World S) A → Exec (ShardState S Q) A
  engine f s = let (r, w) = f s.world in (r, record s { world = w })

  unfoldable pub stored : {A : Type 0} → (S → Result A × S) → Exec (ShardState S Q) (Result A)
  stored f s =
      let (r, storage) = f s.world.storage in
      (returned r, record s { world = record s.world { storage = storage } })

  unfoldable pub polled : {A : Type 0} → Exec S (Result A) → Exec (ShardState S Q) (Result A)
  polled f s =
      let (r, storage) = f s.world.storage in
      (r, record s { world = record s.world { storage = storage } })

  unfoldable pub queued : {A : Type 0} → (Q → Result A × Q) → Exec (ShardState S Q) (Result A)
  queued f s = let (r, q) = f s.queue in (returned r, record s { queue = q })

module _ {S Q : Type 0} (st : Storage S) (md : MetadataService) (lib : Libs)
    (external : ExternalQueue Q)
    -- util.ConvertToProto: the values that structpb accepts.
    (convert_to_proto : Fields → Fields) where
  -- The message for a worker.
  abbrev pub worker_action : ActionExecutionRequest → FlowContext → Action → WorkerAction
  worker_action a ctx act = record {
    workflow_name = a.workflow_name;
    flow_id = a.flow_id;
    action_data =
        convert_to_proto
          (resolve_input_params lib.json_path_lookup ctx.context_data (base act).input_params);
    action_id = int32 a.action_id;
    action_name = a.action_name;
  }

  abbrev push_action :
      ActionExecutionRequest → FlowContext → Option Action → Exec (ShardState S Q) (Unit {0})
  push_action a ctx none = panic
  push_action a ctx (some act) = do r ← queued (external.push (worker_action a ctx act)); pure tt

  abbrev with_flow :
      ActionExecutionRequest → FlowContext → Option (Result Flow) → Exec (ShardState S Q) (Unit {0})
  with_flow a ctx none = panic
  with_flow a ctx (some (err e)) = pure tt
  with_flow a ctx (some (ok fl)) = push_action a ctx (lookup a.action_id fl.actions)

  abbrev with_context :
      ActionExecutionRequest → Result FlowContext → Exec (ShardState S Q) (Unit {0})
  with_context a (err e) = pure tt
  with_context a (ok ctx) = with_flow a ctx (md.get_flow a.workflow_name a.flow_id)

  -- The loop over the actions of one poll; an error skips the action.
  unfoldable pub hand_out : List ActionExecutionRequest → Exec (ShardState S Q) (Unit {0})
  hand_out [] = pure tt
  hand_out (a ∷ actions) = do
    ctx ← stored (st.get_flow_context a.workflow_name a.flow_id)
    with_context a ctx
    hand_out actions

  abbrev pub on_actions : Result (List ActionExecutionRequest) → Exec (ShardState S Q) Bool
  on_actions (err e) = pure false
  on_actions (ok []) = pure false
  on_actions (ok (a ∷ rest)) = do
    hand_out (a ∷ rest)
    acked ← stored (st.ack (lit "user") (a ∷ rest))
    pure true

  -- userActionExecutor.handle
  unfoldable pub handle_user : ℤ → Exec (ShardState S Q) Bool
  handle_user batch_size = do
    actions ← polled (st.poll_action (lit "user") batch_size)
    on_actions actions
