-- ===== src/Shard/Steps/Wait.antt =====
-- The system action wait: ExecuteSystemAction of shard/engine.go.
use orchy.Base.{
  text_beq, ℤ, pos, int_eq, Text, text_eq, lit, Bool, true, false, Option, some, Outcome, returned,
  panicked, continue, pure, ◌>>◌, ◌==◌, if◌then◌else◌, ◌≡◌, refl, ◌∙◌, ap,
}
use orchy.Base.Map.{lookup}
use orchy.Model.{ok, FlowContext, waiting_event, system}
use orchy.Model.Value.{Fields}
use orchy.Action.{Action, base, BaseAction, Libs}
use orchy.Action
use orchy.Flow.{Flow}
use orchy.Shard.Storage.{Storage}
use orchy.Shard.Storage.Reliable.{Reliable, same}
use orchy.Shard.Container.{MetadataService, World, ActionRecord, success, record_action}
use orchy.Shard.Engine.{mark_waiting_event}
use orchy.Shard.Engine.Delays.{delay_action}
use orchy.Shard.Engine.System.{as_duration, as_text, run_wait, run_system, execute_system_action}
use orchy.Shard.Effect.{after_change}
use orchy.Shard.Effect.Read.{IsCurrent, get_lem, insert-IsCurrent}
use orchy.Shard.Effect.Change.{view-change_state_with_event}
use orchy.Shard.Effect.Retry.{IsOpen, validate_open}
use orchy.Shard.Steps.{here}
use orchy.Shard.Steps.Retries.{Follow, delay_action-Follow}
use orchy.Shard.Steps.Delay.{delay_action_lem}

module _ {S : Type 0} (st : Storage S) (rel : Reliable st) (md : MetadataService) (wf id : Text)
    (fl : Flow) (defined : md.get_flow wf id ≡ some (ok fl)) where
  module _ (name : Text) (a d : ℤ) (w : World S) (c : FlowContext) (cur : IsCurrent wf id fl w)
      (v : rel.view w.storage wf id ≡ some c) (open_action : IsOpen c a) where
    abbrev delayed : World S
    delayed = (delay_action st md wf id name a d w).1

    delayed-IsCurrent : IsCurrent wf id fl delayed
    delayed-IsCurrent =
        let start : Follow st rel md wf id fl defined w.storage w = record {
          current = cur;
          moves = here;
          others = λ wf' id' e. refl;
        } in
        (delay_action-Follow st rel md wf id fl defined w.storage name a d w start).current

    view-delayed : (wf' id' : Text) → rel.view delayed.storage wf' id' ≡ rel.view w.storage wf' id'
    view-delayed wf' id' =
        ap (λ s. rel.view s wf' id')
          (delay_action_lem st rel md wf id fl defined name a d w c cur v open_action).1
        ∙ rel.view-delay wf id name a d w.storage wf' id'

  awaited :
      (untimed : Bool) (name event : Text) (a d : ℤ) (w : World S) (c : FlowContext)
      (wf' id' : Text)
      → IsCurrent wf id fl w
      → rel.view w.storage wf id ≡ some c
      → IsOpen c a
      → rel.view
          (((if untimed then pure tt else delay_action st md wf id name a d)
              >> mark_waiting_event st md wf id event)
            w).1.storage
          wf'
          id'
        ≡ (if same wf id wf' id'
            then after_change fl waiting_event event c
            else rel.view w.storage wf' id')
  unfolding mark_waiting_event
  awaited true name event a d w c wf' id' cur v o =
      view-change_state_with_event st rel md wf id fl defined w c waiting_event event wf' id' cur v
  awaited false name event a d w c wf' id' cur v o =
      let w' = delayed name a d w c cur v o in
      rw ((delay_action_lem st rel md wf id fl defined name a d w c cur v o).0) (
        view-change_state_with_event st rel md wf id fl defined w' c waiting_event event wf' id'
          (delayed-IsCurrent name a d w c cur v o) (view-delayed name a d w c cur v o wf id ∙ v)
        ∙ ap (λ r. if same wf id wf' id' then after_change fl waiting_event event c else r)
            (view-delayed name a d w c cur v o wf' id'))

  recorded :
      (r : Outcome (Unit {0})) (x : ActionRecord) (w : World S)
      → (continue r (λ _. record_action x) w).1.storage ≡ w.storage
  unfolding record_action
  recorded (returned u) x w = refl
  recorded panicked x w = refl

  module _ (lib : Libs) (w : World S) (c : FlowContext) (a d : ℤ) (awaited_event : Text)
      (act : Action) (event : Text) (data_map : Option Fields) (cur : IsCurrent wf id fl w)
      (v : rel.view w.storage wf id ≡ some c) (open_action : IsOpen c a)
      (known : lookup a fl.actions ≡ some act) (own_id : (base act).id ≡ a)
      (kind : (base act).action_type ≡ system) (named : (base act).name ≡ lit "wait")
      (timeout : as_duration (lookup (lit "timeout") (base act).params) ≡ some d)
      (param : as_text (lookup (lit "event") (base act).params) ≡ some awaited_event)
      (ran : Action.execute lib act c ≡ returned (ok (event, data_map))) where
    run_wait_lem :
        (w' : World S) (wf' id' : Text)
        → IsCurrent wf id fl w'
        → rel.view w'.storage wf id ≡ some c
        → rel.view (run_wait st md lib wf id (base act) w').1.storage wf' id' ≡ (
            if same wf id wf' id'
            then after_change fl waiting_event awaited_event c
            else rel.view w'.storage wf' id')
    unfolding run_wait
    run_wait_lem w' wf' id' cur' v' =
        rw (timeout, param, named, own_id)
          (awaited (d == pos 0) (lit "wait") awaited_event a d w' c wf' id' cur' v' open_action)

    -- For a storage that does not fail, and a flow that GetFlow returns and that its machine, if one
    -- is cached, runs:
    -- If the system action wait is to be executed and is open, then with or without a timeout the
    -- flow's stored context comes to wait for the event that the action holds (an empty event leaves
    -- the old one), and the other flows' contexts stay.
    pub view-execute_system_action :
        (wf' id' : Text)
        → rel.view (execute_system_action st md lib wf id a w).1.storage wf' id' ≡ (
            if same wf id wf' id'
            then after_change fl waiting_event awaited_event c
            else rel.view w.storage wf' id')
    unfolding execute_system_action run_system text_beq
    view-execute_system_action wf' id' =
        let (m, w', got, ec, ef, es, em) = get_lem st rel md wf id fl defined w c cur v in
        let cur' = insert-IsCurrent st rel md wf id fl defined w w' m ef em in
        let v' : rel.view w'.storage wf id ≡ some c = rw es v in
        let waited = run_wait_lem w' wf' id' cur' v' in
        let ended =
          recorded (run_wait st md lib wf id (base act) w').0
            (success wf id (lit "wait") a data_map) (run_wait st md lib wf id (base act) w').1 in
        rw
          (got, validate_open m a (rw ec open_action), ec, ef, known, ran, kind, named, ended, ← es)
          waited
