-- ===== src/Shard/Steps/Current.antt =====
-- The engine of shard/engine.go caches a flow's machine with the flow's definition only.
use orchy.Base.{
  ℤ, int_eq, Text, text_eq, ==_refl, Bool, true, false, not, ◌&&◌, if◌then◌else◌, Option, some,
  List, [], ◌∷◌, Outcome, returned, panicked, Exec, continue, ◌>>=◌, ◌≡◌, refl, ◌∙◌, arith,
  Option-cases, Bool-cases, inl, inr, ◌⊎◌,
}
use orchy.Base.Map.{lookup, lookup-insert, lookup-delete}
use orchy.Model.{
  Result-cases, flow_already_completed, Result, ok, err, FlowContext, FlowState, running, failed,
  completed,
}
use orchy.Model.Value.{Fields}
use orchy.Action.{base}
use orchy.Flow.{Flow, is_empty}
use orchy.Shard.Storage.{Storage, run_handler, get_handler}
use orchy.Shard.Machine.{
  FlowStateMachine, is_paused, validate, move_forward, move_context, change_state, save_event,
}
use orchy.Shard.Container.{MetadataService, World, machine_key, get, call, cached, store, forget}
use orchy.Shard.Engine.{
  Step, attempt, with_machine, if_valid, save_context_and_dispatch_action, requests,
  run_state_handler, unless_running, change_state_with_event, mark_complete, moved, execute,
}
use orchy.Shard.Effect.Read.{IsCurrent}

flow-changed :
    (m : FlowStateMachine) (s : FlowState) (event : Text)
    → (if is_empty event then change_state m s else save_event (change_state m s) event).flow
      ≡ m.flow
unfolding change_state save_event
flow-changed m s [] = refl
flow-changed m s (x ∷ event) = refl

module _ {S : Type 0} (st : Storage S) (md : MetadataService) (wf id : Text) (fl : Flow)
    (defined : md.get_flow wf id ≡ some (ok fl)) where
  -- After the step, too, a cached machine of the flow runs `fl`.
  abbrev pub KeepsFlow : {A : Type 0} → Exec (World S) A → Type 0
  KeepsFlow m = (w : World S) → IsCurrent wf id fl w → IsCurrent wf id fl (m w).1

  continue-KeepsFlow :
      {A B : Type 0} (r : Outcome A) (f : A → Exec (World S) B)
      → ((a : A) → KeepsFlow (f a))
      → KeepsFlow (continue r f)
  continue-KeepsFlow (returned a) f h = h a
  continue-KeepsFlow panicked f h = λ w cur. cur

  pub bind-KeepsFlow :
      {A B : Type 0} (m : Exec (World S) A) (f : A → Exec (World S) B)
      → KeepsFlow m
      → ((a : A) → KeepsFlow (f a))
      → KeepsFlow (m >>= f)
  bind-KeepsFlow m f h k w cur = continue-KeepsFlow (m w).0 f k (m w).1 (h w cur)

  pub attempt-KeepsFlow : (f : S → Result (Unit {0}) × S) → KeepsFlow (attempt st md f)
  unfolding call
  attempt-KeepsFlow f w cur = record { cached_flow = cur.cached_flow }

  pub store-KeepsFlow : (m : FlowStateMachine) → m.flow ≡ fl → KeepsFlow (store wf id m)
  unfolding store
  store-KeepsFlow m e w cur = record {
    cached_flow = λ m' h. ground (
      arith,
      lookup-insert (machine_key wf id) (machine_key wf id) m w.machines,
      ==_refl (machine_key wf id),
    );
  }

  forget-KeepsFlow : KeepsFlow (forget wf id)
  unfolding forget
  forget-KeepsFlow w cur = record {
    cached_flow = λ m' h. ground (
      arith,
      lookup-delete (machine_key wf id) (machine_key wf id) w.machines,
      ==_refl (machine_key wf id),
    );
  }

  abbrev read : World S → World S
  read w = record w { storage = (st.get_flow_context wf id w.storage).1 }

  -- Get returns an error, or a machine that runs `fl` and that is cached then.
  get-cases :
      (w : World S)
      → IsCurrent wf id fl w
      → ((get st md wf id w).0 ≡ returned (err flow_already_completed))
          × ((get st md wf id w).1 ≡ read w)
        ⊎ ((m : FlowStateMachine) × (m.flow ≡ fl)
            × ((get st md wf id w).0 ≡ returned (ok m))
            × ((get st md wf id w).1 ≡ (store wf id m (read w)).1))
  unfolding get call cached store
  get-cases w cur = elim (Result-cases (st.get_flow_context wf id w.storage).0) [
    | inl (e, refused) ↦ inl (rw refused, rw refused)
    | inr (c, ran) ↦ elim (Option-cases (lookup (machine_key wf id) w.machines)) [
      | inl fresh ↦ inr (
        record { workflow = wf; id = id; context = c; flow = fl },
        refl,
        rw (ran, fresh, defined),
        rw (ran, fresh, defined),
      )
      | inr (old, e) ↦
          inr (record old { context = c }, cur.cached_flow old e, rw (ran, e), rw (ran, e))
    ]
  ]

  with_machine-KeepsFlow :
      (f : FlowStateMachine → Step st md)
      → ((m : FlowStateMachine) → m.flow ≡ fl → KeepsFlow (f m))
      → KeepsFlow (with_machine st md wf id f)
  with_machine-KeepsFlow f h w cur = elim (get-cases w cur) [
    | inl (e, e') ↦ rw (e, e') (record { cached_flow = cur.cached_flow })
    | inr (m, ef, e, e') ↦
        rw (e, e')
          (h m ef (store wf id m (read w)).1
            (store-KeepsFlow m ef (read w) (record { cached_flow = cur.cached_flow })))
  ]

  run_state_handler-KeepsFlow :
      (fl' : Flow) (s : FlowState) → KeepsFlow (run_state_handler st md wf id fl' s)
  run_state_handler-KeepsFlow fl' failed =
      attempt-KeepsFlow (run_handler st (get_handler fl'.failure_handler) wf id)
  run_state_handler-KeepsFlow fl' completed =
      attempt-KeepsFlow (run_handler st (get_handler fl'.success_handler) wf id)
  run_state_handler-KeepsFlow fl' _ = λ w cur. cur

  unless_running-KeepsFlow : (s : FlowState) → KeepsFlow (unless_running st md s (forget wf id))
  unless_running-KeepsFlow running = λ w cur. cur
  unless_running-KeepsFlow _ = forget-KeepsFlow

  pub change_state_with_event-KeepsFlow :
      (s : FlowState) (event : Text) → KeepsFlow (change_state_with_event st md wf id s event)
  unfolding change_state_with_event change_state save_event
  change_state_with_event-KeepsFlow s event = with_machine-KeepsFlow _ λ m e.
      let changed = change_state m s in
      let m' = if is_empty event then changed else save_event changed event in
      bind-KeepsFlow (store wf id m') _ (store-KeepsFlow m' (flow-changed m s event ∙ e)) λ _.
        bind-KeepsFlow (attempt st md (st.save_flow_context wf id m'.context)) _
          (attempt-KeepsFlow (st.save_flow_context wf id m'.context))
          λ _.
            bind-KeepsFlow (unless_running st md s (forget wf id)) _ (unless_running-KeepsFlow s)
              λ _. run_state_handler-KeepsFlow m'.flow s

  pub save_context_and_dispatch_action-KeepsFlow :
      (ids : List ℤ) (fl' : Flow) (c : FlowContext)
      → KeepsFlow (save_context_and_dispatch_action st md wf id ids fl' c)
  unfolding save_context_and_dispatch_action
  save_context_and_dispatch_action-KeepsFlow ids fl' c =
      elim (Option-cases (requests fl'.actions ids)) [
        | inl e ↦ rw e (λ w cur. cur)
        | inr (rs, e) ↦
            rw e (attempt-KeepsFlow (st.save_flow_context_and_dispatch_action wf id c rs))
      ]

  if_valid-KeepsFlow :
      (r : Result (Unit {0})) (f : Step st md) → KeepsFlow f → KeepsFlow (if_valid st md r f)
  if_valid-KeepsFlow (ok u) f h = h
  if_valid-KeepsFlow (err e) f h = λ w cur. cur

  moved-KeepsFlow :
      (m : FlowStateMachine) (done : Bool) (ids : List ℤ)
      → m.flow ≡ fl
      → KeepsFlow (moved st md wf id (returned (m, done, ids)))
  unfolding mark_complete change_state
  moved-KeepsFlow m true ids e = bind-KeepsFlow (store wf id m) _ (store-KeepsFlow m e) λ _.
      bind-KeepsFlow (attempt st md (st.save_flow_context wf id m.context)) _
        (attempt-KeepsFlow (st.save_flow_context wf id m.context))
        λ _. change_state_with_event-KeepsFlow completed []
  moved-KeepsFlow m false ids e =
      bind-KeepsFlow (store wf id (change_state m running)) _
        (store-KeepsFlow (change_state m running) e)
        λ _. save_context_and_dispatch_action-KeepsFlow ids m.flow (change_state m running).context

  forward-KeepsFlow :
      (m : FlowStateMachine) (a : ℤ) (event : Text) (data_map : Option Fields)
      → m.flow ≡ fl
      → KeepsFlow (moved st md wf id (move_forward m a event data_map))
  unfolding move_forward
  forward-KeepsFlow m a event data_map e = elim (Option-cases (lookup a m.flow.actions)) [
    | inl none_there ↦ rw (none_there, move_forward) (λ w cur. cur)
    | inr (act, there) ↦
        let x =
          move_context m.flow.terminal_actions (base act).next_map a event data_map m.context in
        rw (there, move_forward) (moved-KeepsFlow (record m { context = x.0 }) x.1 x.2 e)
  ]

  pub execute-KeepsFlow :
      (a : ℤ) (event : Text) (data_map : Option Fields) (resume : Bool)
      → KeepsFlow (execute st md wf id a event data_map resume)
  unfolding execute
  execute-KeepsFlow a event data_map resume = with_machine-KeepsFlow _ λ m e.
      if_valid-KeepsFlow (validate m a) _
        (elim (Bool-cases (not resume && is_paused m.context.state)) [
          | inl on ↦ rw on (λ w cur. cur)
          | inr off ↦ rw off (forward-KeepsFlow m a event data_map e)
        ])
