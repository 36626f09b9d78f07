-- ===== src/Shard/Effect/Event.antt =====
-- Waiting for an event: ExecuteResumeAfterWait of shard/engine.go.
use orchy.Base.{
  ℤ, int_eq, Text, text_eq, ==_refl, Bool, true, false, ◌||◌, ◌&&◌, Option, [], ◌∷◌, none, some,
  ◌≡◌, arith, if◌then◌else◌, ◌>>◌, pure, Exec,
}
use orchy.Base.Map.{keys, lookup}
use orchy.Model.{ok, FlowContext}
use orchy.Flow.{Flow}
use orchy.Shard.Storage.{Storage}
use orchy.Shard.Storage.Reliable.{Reliable, same}
use orchy.Shard.Machine.{FlowStateMachine, is_terminal, is_paused}
use orchy.Shard.Container.{MetadataService, World}
use orchy.Shard.Engine.{execute, execute_action}
use orchy.Shard.Engine.Resume.{execute_each, execute_resume_after_wait, resume_waiting}
use orchy.Shard.Effect.{after_done, after_action, is_some}
use orchy.Shard.Effect.Read.{IsCurrent, get_lem, insert-IsCurrent}
use orchy.Shard.Effect.Done.{view-execute}

then_pure :
    {S A : Type 0} (m : Exec (World S) (Unit {0})) (x : A) (w : World S)
    → (((m >> pure tt) >> pure x) w).1 ≡ (m w).1
then_pure m x w = ground arith

-- What an event makes of a context that waits for it: nothing, if the flow is paused or the current
-- action is executed already; else the event is the result of that action.
abbrev pub after_event : Flow → ℤ → FlowContext → Option FlowContext
after_event fl a c =
    if is_paused c.state || is_some (lookup a c.executed_actions)
    then some c
    else after_action fl a c.event none c (lookup a fl.actions)

guards :
    {A : Type 0} (x y : A) (p e t : Bool)
    → t ≡ false
    → (if t || (e || (true && p)) then x else y) ≡ (if p || e then x else y)
guards x y p e t h = ground arith

after_event-done :
    (fl : Flow) (a : ℤ) (c : FlowContext)
    → is_terminal c.state ≡ false
    → after_done fl a c.event none false c ≡ after_event fl a c
after_event-done fl a c live =
    guards (some c) (after_action fl a c.event none c (lookup a fl.actions)) (is_paused c.state)
      (is_some (lookup a c.executed_actions)) (is_terminal c.state) live

module _ {S : Type 0} (st : Storage S) (rel : Reliable st) (md : MetadataService) (wf id : Text)
    (fl : Flow) (defined : md.get_flow wf id ≡ some (ok fl)) (w : World S) (c : FlowContext)
    (a n : ℤ) (cur : IsCurrent wf id fl w) (v : rel.view w.storage wf id ≡ some c)
    (live : is_terminal c.state ≡ false) (alone : c.current_action_ids ≡ (a, n) ∷ []) where
  one_key : keys c.current_action_ids ≡ a ∷ []
  unfolding keys
  one_key = rw alone

  resumed :
      (m : FlowStateMachine) (w' : World S)
      → m.context ≡ c
      → (resume_waiting st md wf id c.event (ok m) w').1
        ≡ (execute st md wf id a c.event none false w').1
  unfolding execute_each execute_action
  resumed m w' ec =
      rw (ec, ==_refl c.event, live, one_key)
        (then_pure (execute st md wf id a c.event none false) _ w')

  -- For a storage that does not fail, and a flow that GetFlow returns and that its machine, if one
  -- is cached, runs:
  -- In a flow that is not completed or failed and has one current action, the event whose name the
  -- context holds is the result of that action, whatever the action is and whether or not the state
  -- is that of waiting for an event; but if the flow is paused, or the action is executed already,
  -- the context stays. The contexts of the other flows stay.
  pub view-execute_resume_after_wait :
      (wf' id' : Text)
      → rel.view (execute_resume_after_wait st md wf id c.event w).1.storage wf' id'
        ≡ (if same wf id wf' id' then after_event fl a c else rel.view w.storage wf' id')
  unfolding execute_resume_after_wait
  view-execute_resume_after_wait wf' id' =
      let (m, w', got, ec, ef, es, em) = get_lem st rel md wf id fl defined w c cur v in
      rw (got, resumed m w' ec, ← es, ← after_event-done fl a c live)
        (view-execute st rel md wf id fl defined w' c a c.event none false wf' id'
          (insert-IsCurrent st rel md wf id fl defined w w' m ef em) (rw es v))
