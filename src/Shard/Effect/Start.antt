-- ===== src/Shard/Effect/Start.antt =====
-- The start of a flow: Init of shard/engine.go.
use orchy.Base.{
  int_eq, Text, text_eq, ==_refl, true, List, [], ◌∷◌, contains, some, returned, ◌≡◌, refl, arith,
  if◌then◌else◌,
}
use orchy.Base.Map.{lookup}
use orchy.Model.{ok, ActionExecutionRequest}
use orchy.Model.Value.{Fields}
use orchy.Action.{Action, base}
use orchy.Flow.{Flow}
use orchy.Shard.Storage.{Storage}
use orchy.Shard.Storage.Reliable.{Reliable, same}
use orchy.Shard.Machine.{FlowStateMachine}
use orchy.Shard.Container.{MetadataService, World, call, store, init, initial_context}
use orchy.Shard.Engine.{request, requests, save_context_and_dispatch_action, init_flow}
use orchy.Shard.Effect.Read.{IsCurrent, insert-IsCurrent}

module _ {S : Type 0} (st : Storage S) (rel : Reliable st) (md : MetadataService) (wf id : Text)
    (fl : Flow) (defined : md.get_flow wf id ≡ some (ok fl)) (root : Action)
    (known : lookup fl.root_action fl.actions ≡ some root) (input : Fields) (w : World S) where
  abbrev rs : List ActionExecutionRequest
  rs = request fl.root_action (base root) ∷ []

  pub init_flow-returns : (init_flow st md wf id input w).0 ≡ returned (ok tt)
  unfolding init_flow init store save_context_and_dispatch_action call requests
  init_flow-returns = ground (arith, defined, known)

  init_flow-dispatches :
      (init_flow st md wf id input w).1.storage
      ≡ (st.save_flow_context_and_dispatch_action wf id
          (initial_context fl id input)
          rs
          w.storage).1
  unfolding init_flow init store save_context_and_dispatch_action call requests
  init_flow-dispatches = ground (arith, defined, known)

  pub init_flow-IsCurrent : IsCurrent wf id fl (init_flow st md wf id input w).1
  unfolding init_flow init store save_context_and_dispatch_action call requests
  init_flow-IsCurrent =
      let m : FlowStateMachine = record {
        workflow = wf;
        id = id;
        context = initial_context fl id input;
        flow = fl;
      } in
      insert-IsCurrent st rel md wf id fl defined w _ m refl (ground (arith, defined, known))

  pub view-init_flow :
      (wf' id' : Text)
      → rel.view (init_flow st md wf id input w).1.storage wf' id' ≡ (
          if same wf id wf' id'
          then some (initial_context fl id input)
          else rel.view w.storage wf' id')
  view-init_flow wf' id' =
      rw init_flow-dispatches
        (rel.view-dispatch wf id wf' id' (initial_context fl id input) rs w.storage)

  pub pending-init_flow :
      rel.pending (init_flow st md wf id input w).1.storage wf id fl.root_action ≡ true
  unfolding contains
  pending-init_flow = rw init_flow-dispatches (
      ground (
        arith,
        ==_refl wf,
        ==_refl id,
        ==_refl fl.root_action,
        rel.pending-dispatch wf id wf id fl.root_action (initial_context fl id input) rs w.storage,
      ))
