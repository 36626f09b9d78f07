-- ===== src/Shard/Steps/Retries.antt =====
-- Failures, delays and retries in shard/engine.go move the flow's context by steps.
use orchy.Base.{
  ℤ, pos, int_eq, ltb_ℤ, Text, text_eq, lit, Bool, true, false, if◌then◌else◌, Option, none, some,
  [], ◌∷◌, Outcome, returned, panicked, Exec, continue, ◌>>◌, ◌≡◌, refl, arith, Option-cases, inl,
  inr,
}
use orchy.Base.Map.{Map, lookup}
use orchy.Model.{Result, ok, err, FlowContext, ActionDefinition, failed}
use orchy.Action.{Action, BaseAction, base, seconds}
use orchy.Flow.{Flow}
use orchy.Shard.Storage.{Storage}
use orchy.Shard.Storage.Reliable.{Reliable}
use orchy.Shard.Machine.{FlowStateMachine}
use orchy.Shard.Container.{
  MetadataService, World, ActionRecord, failure, call, record_action, store,
}
use orchy.Shard.Engine.{
  Step, attempt, save_context_and_dispatch_action, requests, request, mark_failed,
}
use orchy.Shard.Engine.Delays.{
  delay_action, execute_retry, retry_failed_action, retry_timedout_action, on_action, on_definition,
  retry_after, or_zero,
}
use orchy.Shard.Effect.Retry.{IsOpen}
use orchy.Shard.Steps.{once_more, tried, gave_up}
use orchy.Shard.Steps.Current.{attempt-KeepsFlow, store-KeepsFlow}
use orchy.Shard.Steps.Follow.{
  Follows, Follows-of_same, Follows-of_move, with_valid-Follows, change-Follows,
}

requests-none :
    (actions : Map ℤ Action) (a : ℤ) → lookup a actions ≡ none → requests actions (a ∷ []) ≡ none
unfolding requests
requests-none actions a e = ground arith

requests-some :
    (actions : Map ℤ Action) (a : ℤ) (act : Action)
    → lookup a actions ≡ some act
    → requests actions (a ∷ []) ≡ some (request a (base act) ∷ [])
unfolding requests
requests-some actions a act e = ground arith

module _ {S : Type 0} (st : Storage S) (rel : Reliable st) (md : MetadataService) (wf id : Text)
    (fl : Flow) (defined : md.get_flow wf id ≡ some (ok fl)) (before : S) where
  abbrev pub Follow : World S → Type 0
  Follow = Follows st rel md wf id fl defined before

  pub continue-Follow :
      {A B : Type 0} (r : Outcome A) (f : A → Exec (World S) B) (w : World S)
      → Follow w
      → ((a : A) → Follow (f a w).1)
      → Follow (continue r f w).1
  continue-Follow (returned a) f w h k = k a
  continue-Follow panicked f w h k = h

  pub record_action-Follow :
      (r : ActionRecord) (w : World S) → Follow w → Follow (record_action r w).1
  unfolding record_action
  record_action-Follow r w h =
      Follows-of_same st rel md wf id fl defined before w _ h
        (record { cached_flow = h.current.cached_flow }) (λ wf' id'. refl)

  -- A call of the storage that leaves every context.
  pub attempt-Follow :
      (f : S → Result (Unit {0}) × S)
      → ((s : S) (wf' id' : Text) → rel.view (f s).1 wf' id' ≡ rel.view s wf' id')
      → (w : World S) → Follow w
      → Follow (attempt st md f w).1
  unfolding call
  attempt-Follow f same_views w h =
      Follows-of_same st rel md wf id fl defined before w _ h
        (attempt-KeepsFlow st md wf id fl defined f w h.current) (same_views w.storage)

  on_action-Follow :
      (o : Option Action) (f : BaseAction → Step st md) (w : World S)
      → Follow w
      → ((b : BaseAction) → Follow (f b w).1)
      → Follow (on_action st md o f w).1
  on_action-Follow none f w h k = h
  on_action-Follow (some act) f w h k = k (base act)

  on_definition-Follow :
      (r : Result ActionDefinition) (f : ActionDefinition → Step st md) (w : World S)
      → Follow w
      → ((d : ActionDefinition) → Follow (f d w).1)
      → Follow (on_definition st md r f w).1
  on_definition-Follow (ok d) f w h k = k d
  on_definition-Follow (err e) f w h k = h

  pub if-Follow :
      (b : Bool) (m n : Step st md) (w : World S)
      → Follow (m w).1
      → Follow (n w).1
      → Follow ((if b then m else n) w).1
  if-Follow true m n w h k = h
  if-Follow false m n w h k = k

  -- A flow fails whose action `a` is open.
  pub fail-Follow :
      (a : ℤ) (c : FlowContext) (w : World S)
      → IsOpen c a
      → Follow w
      → rel.view w.storage wf id ≡ some c
      → Follow (mark_failed st md wf id w).1
  unfolding mark_failed
  fail-Follow a c w o h v =
      change-Follows st rel md wf id fl defined before failed [] w c h v (gave_up a o refl)

  pub recorded_fail-Follow :
      (r : ActionRecord) (a : ℤ) (c : FlowContext) (w : World S)
      → IsOpen c a
      → Follow w
      → rel.view w.storage wf id ≡ some c
      → Follow ((record_action r >> mark_failed st md wf id) w).1
  unfolding record_action
  recorded_fail-Follow r a c w o h v =
      fail-Follow a c (record_action r w).1 o (record_action-Follow r w h) v

  pub delay_action-Follow :
      (name : Text) (a d : ℤ) (w : World S)
      → Follow w
      → Follow (delay_action st md wf id name a d w).1
  unfolding delay_action
  delay_action-Follow name a d =
      with_valid-Follows st rel md wf id fl defined before a _
        λ m w ef o h v. attempt-Follow (st.delay wf id name a d) (rel.view-delay wf id name a d) w h

  pub retry_failed_action-Follow :
      (name : Text) (a : ℤ) (w : World S)
      → Follow w
      → Follow (retry_failed_action st md wf id name a w).1
  unfolding retry_failed_action
  retry_failed_action-Follow name a =
      with_valid-Follows st rel md wf id fl defined before a _ λ m w ef o h v.
        on_action-Follow (lookup a m.flow.actions) _ w h λ b.
          on_definition-Follow (md.get_action_definition b.name) _ w h λ d.
            let n = or_zero (lookup a m.context.current_action_ids) in
            if-Follow (ltb_ℤ n d.retry_count) _ _ w
              (attempt-Follow (st.retry wf id name a (retry_after d n))
                (rel.view-retry wf id name a (retry_after d n)) w h)
              (fail-Follow a m.context w o h v)

  pub retry_timedout_action-Follow :
      (name : Text) (a : ℤ) (w : World S)
      → Follow w
      → Follow (retry_timedout_action st md wf id name a w).1
  unfolding retry_timedout_action
  retry_timedout_action-Follow name a =
      with_valid-Follows st rel md wf id fl defined before a _ λ m w ef o h v.
        on_action-Follow (lookup a m.flow.actions) _ w h λ b.
          on_definition-Follow (md.get_action_definition b.name) _ w h λ d.
            let n = or_zero (lookup a m.context.current_action_ids) in
            if-Follow (ltb_ℤ n d.retry_count) _ _ w
              (attempt-Follow (st.retry wf id name a (seconds (pos 1)))
                (rel.view-retry wf id name a (seconds (pos 1))) w h)
              (recorded_fail-Follow (failure wf id name a (lit "action timedout")) a m.context w o h
                v)

  -- The counted try is stored with the dispatch of the action, unless that action is not defined.
  retried-Follow :
      (a : ℤ) (m : FlowStateMachine) (c : FlowContext) (w : World S)
      → m.flow ≡ fl
      → m.context ≡ once_more a c
      → IsOpen c a
      → Follow w
      → rel.view w.storage wf id ≡ some c
      → Follow
          ((store wf id m >> save_context_and_dispatch_action st md wf id (a ∷ []) m.flow m.context)
            w).1
  unfolding store save_context_and_dispatch_action call
  retried-Follow a m c w ef ec o h v =
      let cur = store-KeepsFlow st md wf id fl defined m ef w h.current in
      elim (Option-cases (lookup a m.flow.actions)) [
        | inl e ↦
            rw (requests-none m.flow.actions a e)
              (Follows-of_same st rel md wf id fl defined before w _ h cur (λ wf' id'. refl))
        | inr (act, e) ↦ rw (requests-some m.flow.actions a act e) (
            Follows-of_move st rel md wf id fl defined before w _ c (some (once_more a c)) h v
              (tried a act o (rw (← ef) e) refl) (record { cached_flow = cur.cached_flow })
              (λ wf' id'. rw ec (
                rel.view-dispatch wf id wf' id' (once_more a c) (request a (base act) ∷ [])
                  w.storage)))
      ]

  pub execute_retry-Follow :
      (a : ℤ) (w : World S) → Follow w → Follow (execute_retry st md wf id a w).1
  unfolding execute_retry
  execute_retry-Follow a = with_valid-Follows st rel md wf id fl defined before a _ λ m w ef o h v.
      retried-Follow a (record m { context = once_more a m.context }) m.context w ef refl o h v
