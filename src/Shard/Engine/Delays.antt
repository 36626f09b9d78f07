-- ===== src/Shard/Engine/Delays.antt =====
-- Delays and retries in shard/engine.go.
use orchy.Base.{
  ℤ, pos, ◌+ℤ◌, ◌*ℤ◌, int64, int_eq, ltb_ℤ, Text, text_eq, lit, if◌then◌else◌, Option, none, some,
  [], ◌∷◌, pure, panic, ◌>>◌,
}
use orchy.Base.Map.{lookup, insert}
use orchy.Model.{Result, ok, err, ActionDefinition, fixed, backoff, other_policy}
use orchy.Action.{Action, BaseAction, base, seconds}
use orchy.Shard.Storage.{Storage}
use orchy.Shard.Container.{MetadataService, failure, record_action, store}
use orchy.Shard.Engine.{
  Step, attempt, with_valid, execute_action, save_context_and_dispatch_action, mark_failed,
}

-- A read of a map[int]int: 0 where the key is missing.
abbrev pub or_zero : Option ℤ → ℤ
or_zero none = pos 0
or_zero (some n) = n

-- The delay before the retry of an action that was tried `try_count` times.
unfoldable pub retry_after : ActionDefinition → ℤ → ℤ
retry_after d try_count = elim d.retry_policy [
  | fixed ↦ seconds d.retry_after_seconds
  | backoff ↦ seconds (int64 (d.retry_after_seconds *ℤ int64 (try_count +ℤ pos 1)))
  | other_policy p ↦ pos 0
]

module _ {S : Type 0} (st : Storage S) (md : MetadataService) where
  -- DelayAction
  unfoldable pub delay_action : Text → Text → Text → ℤ → ℤ → Step st md
  delay_action wf id name action_id delay =
      with_valid st md wf id action_id λ m. attempt st md (st.delay wf id name action_id delay)

  -- ExecuteDelay
  unfoldable pub execute_delay : Text → Text → ℤ → Step st md
  execute_delay wf id action_id = execute_action st md wf id (lit "default") action_id none

  -- ExecuteRetry
  unfoldable pub execute_retry : Text → Text → ℤ → Step st md
  execute_retry wf id action_id = with_valid st md wf id action_id λ m. do
    let tries = or_zero (lookup action_id m.context.current_action_ids)
    let current = insert action_id (int64 (tries +ℤ pos 1)) m.context.current_action_ids
    let m' = record m { context = record m.context { current_action_ids = current } }
    store wf id m'
    save_context_and_dispatch_action st md wf id (action_id ∷ []) m'.flow m'.context

  abbrev pub on_action : Option Action → (BaseAction → Step st md) → Step st md
  on_action none f = panic
  on_action (some act) f = f (base act)

  abbrev pub on_definition : Result ActionDefinition → (ActionDefinition → Step st md) → Step st md
  on_definition (err e) f = pure tt
  on_definition (ok d) f = f d

  -- RetryFailedAction
  unfoldable pub retry_failed_action : Text → Text → Text → ℤ → Step st md
  retry_failed_action wf id name action_id = with_valid st md wf id action_id λ m.
      on_action (lookup action_id m.flow.actions) λ b.
        on_definition (md.get_action_definition b.name) λ d.
          let try_count = or_zero (lookup action_id m.context.current_action_ids) in
          if ltb_ℤ try_count d.retry_count
          then attempt st md (st.retry wf id name action_id (retry_after d try_count))
          else mark_failed st md wf id

  -- RetryTimedoutAction
  unfoldable pub retry_timedout_action : Text → Text → Text → ℤ → Step st md
  retry_timedout_action wf id name action_id = with_valid st md wf id action_id λ m.
      on_action (lookup action_id m.flow.actions) λ b.
        on_definition (md.get_action_definition b.name) λ d.
          let try_count = or_zero (lookup action_id m.context.current_action_ids) in
          if ltb_ℤ try_count d.retry_count
          then attempt st md (st.retry wf id name action_id (seconds (pos 1)))
          else do
            record_action (failure wf id name action_id (lit "action timedout"))
            mark_failed st md wf id
