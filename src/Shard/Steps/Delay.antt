-- ===== src/Shard/Steps/Delay.antt =====
-- The system action delay: ExecuteSystemAction and ExecuteDelay of shard/engine.go.
use orchy.Base.{
  text_beq, ℤ, int_eq, Text, text_eq, ==_refl, lit, Option, some, [], returned, if◌then◌else◌, ◌≡◌,
  refl, arith,
}
use orchy.Base.Map.{lookup}
use orchy.Model.{ok, FlowContext, waiting_delay, system}
use orchy.Model.Value.{Fields}
use orchy.Action.{Action, base, Libs}
use orchy.Action
use orchy.Flow.{Flow}
use orchy.Shard.Storage.{Storage}
use orchy.Shard.Storage.Reliable.{Reliable, same}
use orchy.Shard.Container.{MetadataService, World, record_action, call, store, forget}
use orchy.Shard.Engine.{mark_waiting_delay, change_state_with_event}
use orchy.Shard.Engine.Delays.{delay_action}
use orchy.Shard.Engine.System.{as_duration, run_delay, run_system, execute_system_action}
use orchy.Shard.Effect.{after_change}
use orchy.Shard.Effect.Read.{IsCurrent, get_lem, insert-IsCurrent}
use orchy.Shard.Effect.Change.{view-change_state_with_event}
use orchy.Shard.Effect.Retry.{IsOpen, validate_open}
use orchy.Shard.Steps.Current.{change_state_with_event-KeepsFlow}

module _ {S : Type 0} (st : Storage S) (rel : Reliable st) (md : MetadataService) (wf id : Text)
    (fl : Flow) (defined : md.get_flow wf id ≡ some (ok fl)) where
  pub delay_action_lem :
      (name : Text) (a d : ℤ) (w : World S) (c : FlowContext)
      → IsCurrent wf id fl w
      → rel.view w.storage wf id ≡ some c
      → IsOpen c a
      → ((delay_action st md wf id name a d w).0 ≡ returned tt)
        × ((delay_action st md wf id name a d w).1.storage ≡ (st.delay wf id name a d w.storage).1)
  unfolding delay_action call
  delay_action_lem name a d w c cur v o =
      let (m, w', got, ec, ef, es, em) = get_lem st rel md wf id fl defined w c cur v in
      rw (got, validate_open m a (rw ec o), es) (refl, refl)

  marked_lem :
      (w : World S) (c : FlowContext)
      → IsCurrent wf id fl w
      → rel.view w.storage wf id ≡ some c
      → (mark_waiting_delay st md wf id w).0 ≡ returned tt
  unfolding mark_waiting_delay change_state_with_event store call forget
  marked_lem w c cur v =
      let (m, w', got, ec, ef, es, em) = get_lem st rel md wf id fl defined w c cur v in rw got refl

  module _ (w : World S) (c : FlowContext) (name : Text) (a d : ℤ) (cur : IsCurrent wf id fl w)
      (v : rel.view w.storage wf id ≡ some c) (open_action : IsOpen c a) where
    abbrev marked : World S
    marked = (mark_waiting_delay st md wf id w).1

    marked-IsCurrent : IsCurrent wf id fl marked
    unfolding mark_waiting_delay
    marked-IsCurrent =
        change_state_with_event-KeepsFlow st md wf id fl defined waiting_delay [] w cur

    view-marked :
        (wf' id' : Text)
        → rel.view marked.storage wf' id' ≡ (
            if same wf id wf' id'
            then after_change fl waiting_delay [] c
            else rel.view w.storage wf' id')
    unfolding mark_waiting_delay
    view-marked wf' id' =
        view-change_state_with_event st rel md wf id fl defined w c waiting_delay [] wf' id' cur v

    abbrev waiting : FlowContext
    waiting = record c { state = waiting_delay }

    own-marked : rel.view marked.storage wf id ≡ some waiting
    own-marked = ground (arith, view-marked wf id, ==_refl wf, ==_refl id)

    put_off :
        ((delay_action st md wf id name a d marked).0 ≡ returned tt)
        × ((delay_action st md wf id name a d marked).1.storage
            ≡ (st.delay wf id name a d marked.storage).1)
    put_off =
        delay_action_lem name a d marked waiting marked-IsCurrent own-marked
          (record { live = refl; fresh = open_action.fresh })

  module _ (lib : Libs) (w : World S) (c : FlowContext) (a d : ℤ) (act : Action) (event : Text)
      (data_map : Option Fields) (cur : IsCurrent wf id fl w)
      (v : rel.view w.storage wf id ≡ some c) (open_action : IsOpen c a)
      (known : lookup a fl.actions ≡ some act) (own_id : (base act).id ≡ a)
      (kind : (base act).action_type ≡ system) (named : (base act).name ≡ lit "delay")
      (param : as_duration (lookup (lit "delay") (base act).params) ≡ some d)
      (ran : Action.execute lib act c ≡ returned (ok (event, data_map))) where
    run_delay_lem :
        (w' : World S)
        → IsCurrent wf id fl w'
        → rel.view w'.storage wf id ≡ some c
        → ((run_delay st md lib wf id (base act) w').0 ≡ returned tt)
          × ((run_delay st md lib wf id (base act) w').1.storage
              ≡ (st.delay wf id (lit "delay") a d (mark_waiting_delay st md wf id w').1.storage).1)
    unfolding run_delay
    run_delay_lem w' cur' v' =
        let (done, stored) = put_off w' c (lit "delay") a d cur' v' open_action in
        rw (marked_lem w' c cur' v', param, named, own_id) (done, stored)

    -- For a storage that does not fail, and a flow that GetFlow returns and that its machine, if one
    -- is cached, runs:
    -- If the system action delay is to be executed and is open, the flow's stored context becomes
    -- waiting, the other flows' contexts stay, and then the storage is asked to put the action off by
    -- the duration that the action holds.
    pub execute_system_action-delays :
        (s' : S) × ((execute_system_action st md lib wf id a w).1.storage
          ≡ (st.delay wf id (lit "delay") a d s').1)
        × ((wf' id' : Text)
            → rel.view s' wf' id' ≡ (
                if same wf id wf' id'
                then some (record c { state = waiting_delay })
                else rel.view w.storage wf' id'))
    unfolding execute_system_action run_system record_action text_beq mark_waiting_delay
    execute_system_action-delays =
        let (m, w', got, ec, ef, es, em) = get_lem st rel md wf id fl defined w c cur v in
        let cur' = insert-IsCurrent st rel md wf id fl defined w w' m ef em in
        let v' : rel.view w'.storage wf id ≡ some c = rw es v in
        let (done, stored) = run_delay_lem w' cur' v' in
        (
          (mark_waiting_delay st md wf id w').1.storage,
          rw (got, validate_open m a (rw ec open_action), ec, ef, known, ran, kind, named, done)
              stored,
          λ wf' id'. rw (← es) (view-marked w' c (lit "delay") a d cur' v' open_action wf' id'),
        )
