-- ===== src/Shard/Effect/Done.antt =====
-- The result of an action: execute of shard/engine.go.
use orchy.Base.{
  ℤ, int_eq, Text, text_eq, text_beq_iff, ==_refl, Bool, true, false, [], List, Option, some,
  returned, ◌≡◌, arith, if◌then◌else◌, not, ◌&&◌, Option-cases, inl, inr, pure,
}
use orchy.Base.Map.{lookup, insert, lookup-insert}
use orchy.Model.{ok, FlowContext, running, completed}
use orchy.Model.Value.{Fields}
use orchy.Action.{base}
use orchy.Flow.{Flow}
use orchy.Shard.Storage.{Storage}
use orchy.Shard.Storage.Reliable.{Reliable, same}
use orchy.Shard.Machine.{
  FlowStateMachine, is_paused, validate, move_forward, move_context, change_state,
}
use orchy.Shard.Container.{MetadataService, World, machine_key, call, store}
use orchy.Shard.Engine.{
  if_valid, moved, mark_complete, save_context_and_dispatch_action, requests, execute,
}
use orchy.Shard.Effect.{after_done, after_move, after_action}
use orchy.Shard.Effect.Read.{IsCurrent, get_lem}
use orchy.Shard.Effect.Change.{view-change_state_with_event}

module _ {S : Type 0} (st : Storage S) (rel : Reliable st) (md : MetadataService) (wf id : Text)
    (fl : Flow) (defined : md.get_flow wf id ≡ some (ok fl)) where
  -- The world after a machine was stored and its context saved.
  abbrev saved : World S → FlowStateMachine → World S
  saved w m = record w {
    machines = insert (machine_key wf id) m w.machines;
    storage = (st.save_flow_context wf id m.context w.storage).1;
  }

  saved-IsCurrent :
      (w : World S) (m : FlowStateMachine) → m.flow ≡ fl → IsCurrent wf id fl (saved w m)
  saved-IsCurrent w m ef = record {
    cached_flow = λ m' h. ground (
      arith,
      lookup-insert (machine_key wf id) (machine_key wf id) m w.machines,
      ==_refl (machine_key wf id),
    );
  }

  same_self : same wf id wf id ≡ true
  same_self = rw (==_refl wf, ==_refl id)

  -- What is not written stays, for the flow at hand too.
  kept :
      (s : S) (c : FlowContext) (wf' id' : Text)
      → rel.view s wf id ≡ some c
      → rel.view s wf' id' ≡ (if same wf id wf' id' then some c else rel.view s wf' id')
  kept s c wf' id' v = ground (arith, text_beq_iff wf wf', text_beq_iff id id')

  moved_view :
      (w : World S) (m : FlowStateMachine) (c : FlowContext) (done : Bool) (ids : List ℤ)
      (wf' id' : Text)
      → m.flow ≡ fl
      → rel.view w.storage wf id ≡ some c
      → rel.view (moved st md wf id (returned (m, done, ids)) w).1.storage wf' id' ≡ (
          if same wf id wf' id'
          then after_move m.flow c (m.context, done, ids)
          else rel.view w.storage wf' id')
  unfolding mark_complete store call change_state save_context_and_dispatch_action
  moved_view w m c true ids wf' id' ef v = ground (
    arith,
    view-change_state_with_event st rel md wf id fl defined (saved w m) m.context completed [] wf'
        id' (saved-IsCurrent w m ef),
    rel.view-save wf id wf' id' m.context w.storage,
    rel.view-save wf id wf id m.context w.storage,
    same_self,
  )
  moved_view w m c false ids wf' id' ef v = elim (Option-cases (requests m.flow.actions ids)) [
    | inl e ↦ rw e (kept w.storage c wf' id' v)
    | inr (rs, e) ↦
        rw e (rel.view-dispatch wf id wf' id' (record m.context { state = running }) rs w.storage)
  ]

  -- What a valid result does, from the machine that was read.
  forward_view :
      (w : World S) (m : FlowStateMachine) (a : ℤ) (event : Text) (data_map : Option Fields)
      (wf' id' : Text)
      → m.flow ≡ fl
      → rel.view w.storage wf id ≡ some m.context
      → rel.view (moved st md wf id (move_forward m a event data_map) w).1.storage wf' id' ≡ (
          if same wf id wf' id'
          then after_action m.flow a event data_map m.context (lookup a m.flow.actions)
          else rel.view w.storage wf' id')
  unfolding move_forward
  forward_view w m a event data_map wf' id' ef v = elim (Option-cases (lookup a m.flow.actions)) [
    | inl e ↦ rw (e, move_forward) (kept w.storage m.context wf' id' v)
    | inr (act, e) ↦
        let x =
          move_context m.flow.terminal_actions (base act).next_map a event data_map m.context in
        rw (e, move_forward)
          (moved_view w (record m { context = x.0 }) m.context x.1 x.2 wf' id' ef v)
  ]

  -- The same, with the guards of `execute`.
  guarded_view :
      (w : World S) (m : FlowStateMachine) (a : ℤ) (event : Text) (data_map : Option Fields)
      (resume : Bool) (wf' id' : Text)
      → m.flow ≡ fl
      → rel.view w.storage wf id ≡ some m.context
      → rel.view
          (if_valid st md
            (validate m a)
            (if not resume && is_paused m.context.state
              then pure tt
              else moved st md wf id (move_forward m a event data_map))
            w).1.storage
          wf'
          id'
        ≡ (if same wf id wf' id'
            then after_done m.flow a event data_map resume m.context
            else rel.view w.storage wf' id')
  unfolding validate
  guarded_view w m a event data_map resume wf' id' ef v =
      ground
        (arith, forward_view w m a event data_map wf' id' ef v, kept w.storage m.context wf' id' v)

  -- For a storage that does not fail, and a flow that GetFlow returns and that its machine, if one
  -- is cached, runs:
  -- The result of an action makes of the stored context what `after_done` says, and leaves the
  -- contexts of the other flows.
  pub view-execute :
      (w : World S) (c : FlowContext) (a : ℤ) (event : Text) (data_map : Option Fields)
      (resume : Bool) (wf' id' : Text)
      → IsCurrent wf id fl w
      → rel.view w.storage wf id ≡ some c
      → rel.view (execute st md wf id a event data_map resume w).1.storage wf' id' ≡ (
          if same wf id wf' id'
          then after_done fl a event data_map resume c
          else rel.view w.storage wf' id')
  unfolding execute
  view-execute w c a event data_map resume wf' id' cur v =
      let (m, w', e, ec, ef, es, em) = get_lem st rel md wf id fl defined w c cur v in
      rw (e, ← ec, ← ef, ← es) (guarded_view w' m a event data_map resume wf' id' ef (ground arith))
