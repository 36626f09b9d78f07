-- ===== src/Shard/Steps/Serve.antt =====
-- Whatever is requested of a flow, the engine of shard/engine.go moves its stored context by steps.
use orchy.Base.{
  ℤ, int_eq, Text, text_eq, Bool, true, false, ◌==◌, if◌then◌else◌, none, some, List, [], ◌∷◌, pure,
  ◌>>◌, ◌≡◌, refl, Option-cases, inl, inr,
}
use orchy.Base.Map.{keys, lookup}
use orchy.Model.{Result, ok, paused}
use orchy.Action.{Libs}
use orchy.Flow.{Flow}
use orchy.Shard.Storage.{Storage}
use orchy.Shard.Storage.Reliable.{Reliable, same}
use orchy.Shard.Machine.{is_terminal}
use orchy.Shard.Container.{MetadataService, World}
use orchy.Shard.Engine.{
  mark_paused, change_state_with_event, execute, execute_action, execute_action_resume,
}
use orchy.Shard.Engine.Delays.{execute_delay}
use orchy.Shard.Engine.Resume.{resume_each, execute_resume, execute_each, execute_resume_after_wait}
use orchy.Shard.Effect.Read.{IsCurrent, get_lem, insert-IsCurrent}
use orchy.Shard.Requests.{
  Request, action_done, action_failed, action_timedout, system_action, put_off, delay_over,
  retry_due, resume, consume, serve,
}
use orchy.Shard.Steps.{Moves, here, pauses}
use orchy.Shard.Steps.Follow.{
  Follows-of_same, get_none, with_machine-Follows, change-Follows, execute-Follows,
}
use orchy.Shard.Steps.Retries.{
  Follow, continue-Follow, if-Follow, delay_action-Follow, retry_failed_action-Follow,
  retry_timedout_action-Follow, execute_retry-Follow,
}
use orchy.Shard.Steps.System.{execute_system_action-Follow}

module _ {S : Type 0} (st : Storage S) (rel : Reliable st) (md : MetadataService) (wf id : Text)
    (fl : Flow) (defined : md.get_flow wf id ≡ some (ok fl)) (before : S) (lib : Libs) where
  abbrev Goes : World S → Type 0
  Goes = Follow st rel md wf id fl defined before

  resume_each-Follow :
      (event : Text) (ks : List ℤ) (w : World S)
      → Goes w
      → Goes (resume_each st md wf id event ks w).1
  unfolding resume_each execute_action_resume
  resume_each-Follow event [] w h = h
  resume_each-Follow event (k ∷ ks) w h =
      let ran = execute-Follows st rel md wf id fl defined before k event none true w h in
      continue-Follow st rel md wf id fl defined before (execute st md wf id k event none true w).0
        _ _ ran λ _. resume_each-Follow event ks _ ran

  execute_each-Follow :
      (event : Text) (ks : List ℤ) (w : World S)
      → Goes w
      → Goes (execute_each st md wf id event ks w).1
  unfolding execute_each execute_action
  execute_each-Follow event [] w h = h
  execute_each-Follow event (k ∷ ks) w h =
      let ran = execute-Follows st rel md wf id fl defined before k event none false w h in
      continue-Follow st rel md wf id fl defined before (execute st md wf id k event none false w).0
        _ _ ran λ _. execute_each-Follow event ks _ ran

  execute_resume-Follow :
      (event : Text) (w : World S) → Goes w → Goes (execute_resume st md wf id event w).1
  unfolding execute_resume
  execute_resume-Follow event =
      with_machine-Follows st rel md wf id fl defined before _ λ m w ef h v.
        if-Follow st rel md wf id fl defined before (is_terminal m.context.state) _ _ w h
          (resume_each-Follow event (keys m.context.current_action_ids) w h)

  waiting-Follow :
      (named terminal : Bool) (event : Text) (ks : List ℤ) (x y z : Result (Unit {0})) (w : World S)
      → Goes w
      → Goes
          ((if named
              then if terminal then pure x else (do execute_each st md wf id event ks; pure y)
              else pure z)
            w).1
  waiting-Follow false terminal event ks x y z w h = h
  waiting-Follow true true event ks x y z w h = h
  waiting-Follow true false event ks x y z w h =
      let ran = execute_each-Follow event ks w h in
      continue-Follow st rel md wf id fl defined before (execute_each st md wf id event ks w).0 _ _
        ran λ _. ran

  consume-Follow :
      (event : Text) (w : World S) → Goes w → Goes (execute_resume_after_wait st md wf id event w).1
  unfolding execute_resume_after_wait
  consume-Follow event w h = elim (Option-cases (rel.view w.storage wf id)) [
    | inl v ↦ rw (get_none st rel md wf id fl defined before w v) h
    | inr (c, v) ↦
        let (m, w', got, ec, ef, es, em) = get_lem st rel md wf id fl defined w c h.current v in
        rw got (
          waiting-Follow (m.context.event == event) (is_terminal m.context.state) event
            (keys m.context.current_action_ids) _ _ _ w'
            (Follows-of_same st rel md wf id fl defined before w w' h
              (insert-IsCurrent st rel md wf id fl defined w w' m ef em) (λ wf' id'. rw es)))
  ]

  serve-Follow : (r : Request) (w : World S) → Goes w → Goes (serve st md lib wf id r w).1
  unfolding serve execute_action execute_delay
  serve-Follow (action_done event a data_map) w h =
      execute-Follows st rel md wf id fl defined before a event data_map false w h
  serve-Follow (action_failed name a) w h =
      retry_failed_action-Follow st rel md wf id fl defined before name a w h
  serve-Follow (action_timedout name a) w h =
      retry_timedout_action-Follow st rel md wf id fl defined before name a w h
  serve-Follow (system_action a) w h =
      execute_system_action-Follow st rel md wf id fl defined before lib a w h
  serve-Follow (put_off name a d) w h =
      delay_action-Follow st rel md wf id fl defined before name a d w h
  serve-Follow (delay_over a) w h =
      execute-Follows st rel md wf id fl defined before a _ none false w h
  serve-Follow (retry_due a) w h = execute_retry-Follow st rel md wf id fl defined before a w h
  serve-Follow (resume event) w h = execute_resume-Follow event w h
  serve-Follow (consume event) w h =
      let ran = consume-Follow event w h in
      continue-Follow st rel md wf id fl defined before
        (execute_resume_after_wait st md wf id event w).0 _ _ ran λ _. ran

-- What happens to a shard: a request for the flow, a pause of the flow, and a start of the process,
-- with no machine yet.
pub data Event : Type 0 where
  requested : Request → Event
  pause_asked restarted : Event

module _ {S : Type 0} (st : Storage S) (md : MetadataService) (lib : Libs) (wf id : Text) where
  -- After a panic the world is as the panic left it.
  unfoldable pub happen : Event → World S → World S
  happen (requested r) w = (serve st md lib wf id r w).1
  happen pause_asked w = (mark_paused st md wf id w).1
  happen restarted w = record w { machines = [] }

  unfoldable pub run : List Event → World S → World S
  unfolding happen
  run [] w = w
  run (e ∷ es) w = run es (happen e w)

module _ {S : Type 0} (st : Storage S) (rel : Reliable st) (md : MetadataService) (wf id : Text)
    (fl : Flow) (defined : md.get_flow wf id ≡ some (ok fl)) (lib : Libs) where
  pause-Follow :
      (before : S) (w : World S)
      → Follow st rel md wf id fl defined before w
      → Follow st rel md wf id fl defined before (mark_paused st md wf id w).1
  unfolding mark_paused change_state_with_event
  pause-Follow before w h = elim (Option-cases (rel.view w.storage wf id)) [
    | inl v ↦ rw (get_none st rel md wf id fl defined before w v) h
    | inr (c, v) ↦ change-Follows st rel md wf id fl defined before paused [] w c h v (pauses refl)
  ]

  happen-Follow :
      (before : S) (e : Event) (w : World S)
      → Follow st rel md wf id fl defined before w
      → Follow st rel md wf id fl defined before (happen st md lib wf id e w)
  unfolding happen lookup
  happen-Follow before (requested r) w h = serve-Follow st rel md wf id fl defined before lib r w h
  happen-Follow before pause_asked w h = pause-Follow before w h
  happen-Follow before restarted w h =
      Follows-of_same st rel md wf id fl defined before w _ h (record { cached_flow = λ m e. cc })
        (λ wf' id'. refl)

  run-Follow :
      (before : S) (es : List Event) (w : World S)
      → Follow st rel md wf id fl defined before w
      → Follow st rel md wf id fl defined before (run st md lib wf id es w)
  unfolding run
  run-Follow before [] w h = h
  run-Follow before (e ∷ es) w h =
      run-Follow before es (happen st md lib wf id e w) (happen-Follow before e w h)

  started : (w : World S) → IsCurrent wf id fl w → Follow st rel md wf id fl defined w.storage w
  started w cur = record { current = cur; moves = here; others = λ wf' id' e. refl }

  pub run_own-Moves :
      (es : List Event) (w : World S)
      → IsCurrent wf id fl w
      → Moves fl (rel.view w.storage wf id) (rel.view (run st md lib wf id es w).storage wf id)
  run_own-Moves es w cur = (run-Follow w.storage es w (started w cur)).moves

  pub run-IsCurrent :
      (es : List Event) (w : World S)
      → IsCurrent wf id fl w
      → IsCurrent wf id fl (run st md lib wf id es w)
  run-IsCurrent es w cur = (run-Follow w.storage es w (started w cur)).current

  -- For a storage that does not fail, and a flow that GetFlow returns and that its machine, if one
  -- is cached, runs:
  -- Whatever is requested of a flow, in whatever order, with pauses and restarts between, and whether or
  -- not requests panic: its stored context moves by steps of the relation Move, and the stored
  -- contexts of the other flows stay.
  pub run-Moves :
      (es : List Event) (w : World S) (wf' id' : Text)
      → IsCurrent wf id fl w
      → same wf id wf' id' ≡ false
      → Moves fl (rel.view w.storage wf id) (rel.view (run st md lib wf id es w).storage wf id)
        × (rel.view (run st md lib wf id es w).storage wf' id' ≡ rel.view w.storage wf' id')
  run-Moves es w wf' id' cur other =
      (run_own-Moves es w cur, (run-Follow w.storage es w (started w cur)).others wf' id' other)
