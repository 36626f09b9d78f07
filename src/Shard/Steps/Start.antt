-- ===== src/Shard/Steps/Start.antt =====
-- A flow from its start by Init (shard/engine.go).
use orchy.Base.{
  int_eq, int_beq_iff, Text, text_eq, ==_refl, true, List, some, returned, ◌≡◌, arith,
  if◌then◌else◌,
}
use orchy.Base.Map.{lookup}
use orchy.Model.{ok}
use orchy.Model.Value.{Fields}
use orchy.Action.{Action, Libs}
use orchy.Flow.{Flow}
use orchy.Shard.Storage.{Storage}
use orchy.Shard.Storage.Reliable.{Reliable, same}
use orchy.Shard.Container.{MetadataService, World, initial_context}
use orchy.Shard.Engine.{init_flow}
use orchy.Shard.Effect.Start.{
  init_flow-returns, init_flow-IsCurrent, view-init_flow, pending-init_flow,
}
use orchy.Shard.Steps.Invariant.{IsWellFormed, run-IsWellFormed}
use orchy.Shard.Steps.Keeps.{Stored}
use orchy.Shard.Steps.Serve.{Event, run}

initial-IsWellFormed :
    (fl : Flow) (id : Text) (input : Fields) (root : Action)
    → lookup fl.root_action fl.actions ≡ some root
    → IsWellFormed fl (initial_context fl id input)
unfolding lookup
initial-IsWellFormed fl id input root known = record {
  current_defined = λ k n h. (root, ground (arith, known, int_beq_iff fl.root_action k));
  completed_ended = λ h. cc;
}

module _ {S : Type 0} (st : Storage S) (rel : Reliable st) (md : MetadataService) (wf id : Text)
    (fl : Flow) (defined : md.get_flow wf id ≡ some (ok fl)) (lib : Libs) where
  -- For a storage that does not fail, a flow that GetFlow returns, and a root action that the flow
  -- has:
  -- Init succeeds, the root action is in its queue, the initial context is stored for the flow, and
  -- the contexts of the other flows stay; and whatever is requested of the flow then, in whatever
  -- order, with pauses and restarts between, the context that is stored for it is well formed.
  pub init_flow-IsWellFormed :
      (root : Action) (input : Fields) (w : World S) (es : List Event) (wf' id' : Text)
      → lookup fl.root_action fl.actions ≡ some root
      → ((init_flow st md wf id input w).0 ≡ returned (ok tt))
        × (rel.pending (init_flow st md wf id input w).1.storage wf id fl.root_action ≡ true)
        × (rel.view (init_flow st md wf id input w).1.storage wf' id' ≡ (
            if same wf id wf' id'
            then some (initial_context fl id input)
            else rel.view w.storage wf' id'))
        × Stored
            (IsWellFormed fl)
            (rel.view (run st md lib wf id es (init_flow st md wf id input w).1).storage wf id)
  init_flow-IsWellFormed root input w es wf' id' known =
      let own = view-init_flow st rel md wf id fl defined root known input w wf id in
      let stored : Stored (IsWellFormed fl)
          (rel.view (init_flow st md wf id input w).1.storage wf id) =
        rw (own, ==_refl wf, ==_refl id) (initial-IsWellFormed fl id input root known) in
      (
        init_flow-returns st rel md wf id fl defined root known input w,
        pending-init_flow st rel md wf id fl defined root known input w,
        view-init_flow st rel md wf id fl defined root known input w wf' id',
        run-IsWellFormed st rel md wf id fl defined lib es _
            (init_flow-IsCurrent st rel md wf id fl defined root known input w) stored,
      )
