-- ===== src/Shard/Steps/System.antt =====
-- System actions in shard/engine.go move the flow's context by steps.
use orchy.Base.{
  ℤ, pos, int_eq, Text, text_eq, lit, Bool, true, false, ◌==◌, if◌then◌else◌, Option, none, some,
  [], Outcome, returned, panicked, pure, ◌>>◌, ◌≡◌, refl, ◌∙◌,
}
use orchy.Base.Map.{lookup}
use orchy.Model.{
  Result, ok, err, FlowContext, ActionType, system, user, waiting_delay, waiting_event,
}
use orchy.Model.Value.{Fields}
use orchy.Action
use orchy.Action.{Action, BaseAction, base, Libs}
use orchy.Flow.{Flow}
use orchy.Shard.Storage.{Storage}
use orchy.Shard.Storage.Reliable.{Reliable}
use orchy.Shard.Machine.{validate}
use orchy.Shard.Container.{MetadataService, World, success, failure, call}
use orchy.Shard.Engine.{
  Step, attempt, if_valid, execute_action, mark_waiting_delay, mark_waiting_event,
}
use orchy.Shard.Engine.Delays.{delay_action}
use orchy.Shard.Engine.System.{
  as_duration, as_text, on_duration, on_text, run_delay, run_wait, run_system, by_type, executed,
  run_action, execute_system_action,
}
use orchy.Shard.Effect.Read.{IsCurrent, get_lem}
use orchy.Shard.Effect.Retry.{IsOpen}
use orchy.Shard.Steps.{put_off, awaits}
use orchy.Shard.Steps.Follow.{with_valid-Follows, change-Follows, execute-Follows}
use orchy.Shard.Steps.Retries.{
  Follow, continue-Follow, record_action-Follow, recorded_fail-Follow, if-Follow,
  delay_action-Follow,
}

module _ {S : Type 0} (st : Storage S) (rel : Reliable st) (md : MetadataService) (wf id : Text)
    (fl : Flow) (defined : md.get_flow wf id ≡ some (ok fl)) where
  valid_view :
      (r : Result (Unit {0})) (name : Text) (a d : ℤ) (w : World S)
      → rel.view (if_valid st md r (attempt st md (st.delay wf id name a d)) w).1.storage wf id
        ≡ rel.view w.storage wf id
  unfolding call
  valid_view (ok u) name a d w = rel.view-delay wf id name a d w.storage wf id
  valid_view (err e) name a d w = refl

  -- A delay leaves the flow's own context, too.
  view-delay_action :
      (name : Text) (a d : ℤ) (w : World S) (c : FlowContext)
      → IsCurrent wf id fl w
      → rel.view w.storage wf id ≡ some c
      → rel.view (delay_action st md wf id name a d w).1.storage wf id ≡ some c
  unfolding delay_action
  view-delay_action name a d w c cur v =
      let (m, w', got, ec, ef, es, em) = get_lem st rel md wf id fl defined w c cur v in
      rw got (valid_view (validate m a) name a d w' ∙ rw es v)

module _ {S : Type 0} (st : Storage S) (rel : Reliable st) (md : MetadataService) (wf id : Text)
    (fl : Flow) (defined : md.get_flow wf id ≡ some (ok fl)) (before : S) (lib : Libs) where
  abbrev Goes : World S → Type 0
  Goes = Follow st rel md wf id fl defined before

  duration-Follow :
      (o : Option ℤ) (f : ℤ → Step st md) (w : World S)
      → Goes w
      → ((d : ℤ) → Goes (f d w).1)
      → Goes (on_duration st md lib o f w).1
  duration-Follow none f w h k = h
  duration-Follow (some d) f w h k = k d

  text-Follow :
      (o : Option Text) (f : Text → Step st md) (w : World S)
      → Goes w
      → ((t : Text) → Goes (f t w).1)
      → Goes (on_text st md lib o f w).1
  text-Follow none f w h k = h
  text-Follow (some t) f w h k = k t

  module _ (a : ℤ) (c : FlowContext) (o : IsOpen c a) where
    run_delay-Follow :
        (b : BaseAction) (w : World S)
        → Goes w
        → rel.view w.storage wf id ≡ some c
        → Goes (run_delay st md lib wf id b w).1
    unfolding run_delay mark_waiting_delay
    run_delay-Follow b w h v =
        let marked =
          change-Follows st rel md wf id fl defined before waiting_delay [] w c h v
            (put_off a o refl) in
        continue-Follow st rel md wf id fl defined before (mark_waiting_delay st md wf id w).0 _
          (mark_waiting_delay st md wf id w).1 marked
          λ _.
            duration-Follow (as_duration (lookup (lit "delay") b.params)) _ _ marked
              λ d. delay_action-Follow st rel md wf id fl defined before b.name b.id d _ marked

    awaited-Follow :
        (event : Text) (w : World S)
        → Goes w
        → rel.view w.storage wf id ≡ some c
        → Goes (mark_waiting_event st md wf id event w).1
    unfolding mark_waiting_event
    awaited-Follow event w h v =
        change-Follows st rel md wf id fl defined before waiting_event event w c h v
          (awaits a event o refl)

    timed-Follow :
        (untimed : Bool) (b : BaseAction) (d : ℤ) (event : Text) (w : World S)
        → Goes w
        → rel.view w.storage wf id ≡ some c
        → Goes
            (((if untimed then pure tt else delay_action st md wf id b.name b.id d)
                >> mark_waiting_event st md wf id event)
              w).1
    timed-Follow true b d event w h v = awaited-Follow event w h v
    timed-Follow false b d event w h v =
        let put = delay_action-Follow st rel md wf id fl defined before b.name b.id d w h in
        continue-Follow st rel md wf id fl defined before
          (delay_action st md wf id b.name b.id d w).0 _
          (delay_action st md wf id b.name b.id d w).1 put
          λ _.
            awaited-Follow event (delay_action st md wf id b.name b.id d w).1 put
              (view-delay_action st rel md wf id fl defined b.name b.id d w c h.current v)

    run_wait-Follow :
        (b : BaseAction) (w : World S)
        → Goes w
        → rel.view w.storage wf id ≡ some c
        → Goes (run_wait st md lib wf id b w).1
    unfolding run_wait
    run_wait-Follow b w h v =
        duration-Follow (as_duration (lookup (lit "timeout") b.params)) _ w h λ d.
          text-Follow (as_text (lookup (lit "event") b.params)) _ w h
            λ event. timed-Follow (d == pos 0) b d event w h v

    run_system-Follow :
        (b : BaseAction) (event : Text) (data_map : Option Fields) (w : World S)
        → Goes w
        → rel.view w.storage wf id ≡ some c
        → Goes (run_system st md lib wf id a b event data_map w).1
    unfolding run_system execute_action
    run_system-Follow b event data_map w h v =
        if-Follow st rel md wf id fl defined before (b.name == lit "delay") _ _ w
          (run_delay-Follow b w h v)
          (if-Follow st rel md wf id fl defined before (b.name == lit "wait") _ _ w
            (run_wait-Follow b w h v)
            (execute-Follows st rel md wf id fl defined before a event data_map false w h))

    by_type-Follow :
        (t : ActionType) (b : BaseAction) (event : Text) (data_map : Option Fields) (w : World S)
        → Goes w
        → rel.view w.storage wf id ≡ some c
        → Goes (by_type st md lib t wf id a b event data_map w).1
    by_type-Follow user b event data_map w h v = h
    by_type-Follow system b event data_map w h v =
        let ran = run_system-Follow b event data_map w h v in
        continue-Follow st rel md wf id fl defined before
          (run_system st md lib wf id a b event data_map w).0 _
          (run_system st md lib wf id a b event data_map w).1 ran
          λ _.
            record_action-Follow st rel md wf id fl defined before (success wf id b.name a data_map)
              _ ran

    executed-Follow :
        (b : BaseAction) (r : Outcome (Result (Text × Option Fields))) (w : World S)
        → Goes w
        → rel.view w.storage wf id ≡ some c
        → Goes (executed st md lib wf id a b r w).1
    executed-Follow b panicked w h v = h
    executed-Follow b (returned (err e)) w h v =
        recorded_fail-Follow st rel md wf id fl defined before
          (failure wf id b.name a (lit "action failed")) a c w o h v
    executed-Follow b (returned (ok (event, data_map))) w h v =
        by_type-Follow b.action_type b event data_map w h v

    run_action-Follow :
        (act : Option Action) (w : World S)
        → Goes w
        → rel.view w.storage wf id ≡ some c
        → Goes (run_action st md lib wf id a c act w).1
    run_action-Follow none w h v = h
    run_action-Follow (some act) w h v = executed-Follow (base act) (Action.execute lib act c) w h v

  pub execute_system_action-Follow :
      (a : ℤ) (w : World S) → Goes w → Goes (execute_system_action st md lib wf id a w).1
  unfolding execute_system_action
  execute_system_action-Follow a =
      with_valid-Follows st rel md wf id fl defined before a _
        λ m w ef o h v. run_action-Follow a m.context o (lookup a m.flow.actions) w h v
