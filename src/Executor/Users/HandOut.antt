-- ===== src/Executor/Users/HandOut.antt =====
-- What the executor of user actions (shard/executor/user_action_executor.go) pushes for the workers.
use orchy.Base.{
  ℤ, int_eq, Text, lit, true, Option, some, List, [], ◌∷◌, ◌++◌, append_assoc, append-nil, All,
  returned, ◌≡◌, refl, sym, ap, ◌∙◌, arith, Option-cases, Bool-cases, if◌then◌else◌, ◌==◌, text_eq,
  inl, inr,
}
use orchy.Base.Map.{lookup}
use orchy.Model.{ok, FlowContext, ActionExecutionRequest}
use orchy.Model.Value.{Fields}
use orchy.Action.{Action, Libs}
use orchy.Flow.{Flow}
use orchy.Shard.Storage.{Storage}
use orchy.Shard.Storage.Reliable.{Reliable}
use orchy.Shard.Container.{MetadataService}
use orchy.Persistence.Queue.{WorkerAction}
use orchy.Executor.Users.{
  ExternalQueue, ShardState, stored, queued, polled, worker_action, hand_out, handle_user,
}

-- What was pushed and is of one name, in the order in which it was pushed; no push fails.
pub record Pushes {Q : Type 0} (external : ExternalQueue Q) : Type 0 where
  pub pushed : Q → Text → List WorkerAction
  pub pushed-push :
      (a : WorkerAction) (q : Q) (name : Text)
      → pushed (external.push a q).1 name
        ≡ (if a.action_name == name then pushed q name ++ (a ∷ []) else pushed q name)

-- The actions of one name.
abbrev pub of_name : Text → List WorkerAction → List WorkerAction
of_name name [] = []
of_name name (a ∷ actions) =
    let rest = of_name name actions in if a.action_name == name then a ∷ rest else rest

module _ {S Q : Type 0} (st : Storage S) (rel : Reliable st) (md : MetadataService) (lib : Libs)
    (external : ExternalQueue Q) (pushes : Pushes external) (convert_to_proto : Fields → Fields)
    (flow_of : Text → Text → Flow) where
  -- The flow of the request is defined, and has the action.
  pub record IsKnown (r : ActionExecutionRequest) : Type 0 where
    pub flow_defined :
        md.get_flow r.workflow_name r.flow_id ≡ some (ok (flow_of r.workflow_name r.flow_id))
    pub act : Action
    pub action_there : lookup r.action_id (flow_of r.workflow_name r.flow_id).actions ≡ some act

  -- What a worker is to get for one request: nothing, if there is no context or no action.
  abbrev pub job_of :
      ActionExecutionRequest → Option FlowContext → Option Action → List WorkerAction
  job_of r (some c) (some act) = worker_action st md lib external convert_to_proto r c act ∷ []
  job_of r _ _ = []

  -- What the workers are to get for the requests, with the contexts that are stored.
  abbrev pub jobs :
      (Text → Text → Option FlowContext) → List ActionExecutionRequest → List WorkerAction
  jobs view [] = []
  jobs view (r ∷ rs) =
      job_of r (view r.workflow_name r.flow_id)
        (lookup r.action_id (flow_of r.workflow_name r.flow_id).actions)
      ++ jobs view rs

  pushed_one :
      (a : WorkerAction) (q : Q) (name : Text) (rest : List WorkerAction)
      → pushes.pushed (external.push a q).1 name ++ of_name name rest
        ≡ pushes.pushed q name ++ of_name name (a ∷ rest)
  pushed_one a q name rest = elim (Bool-cases (a.action_name == name)) [
    | inl same ↦
        ap (λ l. l ++ of_name name rest) (ground (arith, pushes.pushed-push a q name))
        ∙ append_assoc (pushes.pushed q name) (a ∷ []) (of_name name rest)
        ∙ ap (λ b. pushes.pushed q name ++ (if b then a ∷ of_name name rest else of_name name rest))
            (sym same)
    | inr other ↦ ground (arith, pushes.pushed-push a q name)
  ]

  hand_out_lem :
      (name : Text) (rs : List ActionExecutionRequest) (s : ShardState S Q)
      → All IsKnown rs
      → ((hand_out st md lib external convert_to_proto rs s).0 ≡ returned tt)
        × ((hand_out st md lib external convert_to_proto rs s).1.world ≡ s.world)
        × (pushes.pushed (hand_out st md lib external convert_to_proto rs s).1.queue name
            ≡ pushes.pushed s.queue name ++ of_name name (jobs (rel.view s.world.storage) rs))
  unfolding hand_out stored queued
  hand_out_lem name [] s h = (refl, refl, sym (append-nil (pushes.pushed s.queue name)))
  hand_out_lem name (r ∷ rs) s h =
      elim (Option-cases (rel.view s.world.storage r.workflow_name r.flow_id)) [
        | inl e ↦
            rw (rel.get_law r.workflow_name r.flow_id s.world.storage, e)
              (hand_out_lem name rs s h.1)
        | inr (c, v) ↦
            let a = worker_action st md lib external convert_to_proto r c h.0.act in
            let (ran, same, more) =
              hand_out_lem name rs (record s { queue = (external.push a s.queue).1 }) h.1 in
            rw
              (
                rel.get_law r.workflow_name r.flow_id s.world.storage,
                v,
                h.0.flow_defined,
                h.0.action_there,
              )
              (ran, same, more ∙ pushed_one a s.queue name (jobs (rel.view s.world.storage) rs))
      ]

  -- If a poll of the storage returns requests of flows and actions that are defined, and the storage's
  -- reads and the queue's pushes do not fail, then a round of the executor finds work; it appends to
  -- each queue, in the order of the requests, an action with resolved parameters for each request
  -- whose flow has a stored context; and it leaves the storage as the poll left it but for the
  -- acknowledgement of just these requests.
  pub handle_user_lem :
      (n : ℤ) (r : ActionExecutionRequest) (rs : List ActionExecutionRequest) (storage : S)
      (s : ShardState S Q) (name : Text)
      → st.poll_action (lit "user") n s.world.storage ≡ (returned (ok (r ∷ rs)), storage)
      → All IsKnown (r ∷ rs)
      → ((handle_user st md lib external convert_to_proto n s).0 ≡ returned true)
        × ((handle_user st md lib external convert_to_proto n s).1.world
            ≡ record s.world { storage = (st.ack (lit "user") (r ∷ rs) storage).1 })
        × (pushes.pushed (handle_user st md lib external convert_to_proto n s).1.queue name
            ≡ pushes.pushed s.queue name ++ of_name name (jobs (rel.view storage) (r ∷ rs)))
  unfolding handle_user polled stored
  handle_user_lem n r rs storage s name e known =
      let s' : ShardState S Q = record s { world = record s.world { storage = storage } } in
      let (ran, same, more) = hand_out_lem name (r ∷ rs) s' known in
      rw (e, ran, same) (refl, refl, more)
