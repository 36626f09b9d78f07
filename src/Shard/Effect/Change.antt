-- ===== src/Shard/Effect/Change.antt =====
-- The changes of state: MarkComplete, MarkFailed, MarkPaused and the others.
use orchy.Base.{Text, text_eq, [], ◌∷◌, Option, some, ◌≡◌, arith, if◌then◌else◌, ◌>>◌}
use orchy.Model.{ok, FlowContext, FlowState, running, failed, completed}
use orchy.Flow.{Flow}
use orchy.Shard.Storage.{Storage, run_handler}
use orchy.Shard.Storage.Reliable.{Reliable, same}
use orchy.Shard.Machine.{change_state, save_event}
use orchy.Shard.Container.{MetadataService, World, call, store, forget}
use orchy.Shard.Engine.{run_state_handler, unless_running, change_state_with_event}
use orchy.Shard.Effect.{handled, after_change}
use orchy.Shard.Effect.Read.{IsCurrent, get_lem}

module _ {S : Type 0} (st : Storage S) (rel : Reliable st) (md : MetadataService)
    (wf id : Text) where
  -- The handler that a state runs, after the context has been saved.
  run_state_handler_view :
      (fl : Flow) (s : FlowState) (w : World S) (c : FlowContext) (wf' id' : Text)
      (old : Option FlowContext)
      → rel.view w.storage wf' id' ≡ (if same wf id wf' id' then some c else old)
      → rel.view (run_state_handler st md wf id fl s w).1.storage wf' id'
        ≡ (if same wf id wf' id' then handled fl s c else old)
  unfolding call run_handler
  run_state_handler_view fl failed w c wf' id' old v =
      ground (arith, rel.view-delete wf id wf' id' w.storage)
  run_state_handler_view fl completed w c wf' id' old v =
      ground (arith, rel.view-delete wf id wf' id' w.storage)
  run_state_handler_view fl _ w c wf' id' old v = v

  -- What follows the save: the machine is forgotten, and the handler runs.
  end_view :
      (fl : Flow) (s : FlowState) (w : World S) (c : FlowContext) (wf' id' : Text)
      (old : Option FlowContext)
      → rel.view w.storage wf' id' ≡ (if same wf id wf' id' then some c else old)
      → rel.view
          ((unless_running st md s (forget wf id) >> run_state_handler st md wf id fl s)
            w).1.storage
          wf'
          id'
        ≡ (if same wf id wf' id' then handled fl s c else old)
  unfolding forget
  end_view fl running w c wf' id' old v = v
  end_view fl s w c wf' id' old v =
      run_state_handler_view fl s (record w { machines = (forget {S = S} wf id w).1.machines }) c
        wf' id' old v

  module _ (fl : Flow) (defined : md.get_flow wf id ≡ some (ok fl)) where
    -- For a storage that does not fail, and a flow that GetFlow returns and that its machine, if one
    -- is cached, runs:
    -- A change of state rewrites the stored context and runs the handler of the new state; the
    -- contexts of the other flows stay.
    pub view-change_state_with_event :
        (w : World S) (c : FlowContext) (s : FlowState) (event wf' id' : Text)
        → IsCurrent wf id fl w
        → rel.view w.storage wf id ≡ some c
        → rel.view (change_state_with_event st md wf id s event w).1.storage wf' id'
          ≡ (if same wf id wf' id' then after_change fl s event c else rel.view w.storage wf' id')
    unfolding change_state_with_event change_state save_event store call
    view-change_state_with_event w c s [] wf' id' cur v =
        let (m, w', e, ec, ef, es, em) = get_lem st rel md wf id fl defined w c cur v in
        let c' : FlowContext = record m.context { state = s } in
        rw (e, ← ec, ← ef, ← es)
          (end_view m.flow s _ c' wf' id' _ (rel.view-save wf id wf' id' c' w'.storage))
    view-change_state_with_event w c s (x ∷ event) wf' id' cur v =
        let (m, w', e, ec, ef, es, em) = get_lem st rel md wf id fl defined w c cur v in
        let c' : FlowContext = record m.context { state = s; event = x ∷ event } in
        rw (e, ← ec, ← ef, ← es)
          (end_view m.flow s _ c' wf' id' _ (rel.view-save wf id wf' id' c' w'.storage))
