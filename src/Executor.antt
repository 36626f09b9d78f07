-- ===== src/Executor.antt =====
-- The package shard/executor: what the handlers of the five executors of a shard do in one round,
-- and when they run (util/worker.go). A handler returns whether it found work.
pub mod Worker
pub mod Users
use orchy.Base.{
  ℤ, Text, lit, Bool, true, false, List, [], ◌∷◌, Outcome, returned, panicked, Exec, pure, panic,
  ◌>>=◌, ◌>>◌,
}
use orchy.Model.{Result, ok, err, ActionExecutionRequest}
use orchy.Action.{Libs}
use orchy.Shard.Storage.{Storage}
use orchy.Shard.Container.{MetadataService, World, call}
use orchy.Shard.Engine.Delays.{execute_delay, execute_retry, retry_timedout_action}
use orchy.Shard.Engine.System.{execute_system_action}

module _ {S : Type 0} where
  -- A poll of the storage, which may panic.
  unfoldable pub poll : {A : Type 0} → Exec S (Result A) → Exec (World S) (Result A)
  poll f w = let (r, s) = f w.storage in (r, record w { storage = s })

  -- The loop over the actions of one poll.
  unfoldable pub for_each :
      (ActionExecutionRequest → Exec (World S) (Unit {0}))
      → List ActionExecutionRequest
      → Exec (World S) (Unit {0})
  for_each body [] = pure tt
  for_each body (action ∷ actions) = body action >> for_each body actions

  abbrev pub on_polled :
      (List ActionExecutionRequest → Exec (World S) (Unit {0}))
      → Result (List ActionExecutionRequest)
      → Exec (World S) Bool
  on_polled f (err e) = pure false
  on_polled f (ok []) = pure false
  on_polled f (ok (a ∷ rest)) = f (a ∷ rest) >> pure true

module _ {S : Type 0} (st : Storage S) (md : MetadataService) (lib : Libs) where
  -- systemActionExecutor.handle: the actions are acknowledged after they have been executed.
  unfoldable pub handle_system : ℤ → Exec (World S) Bool
  handle_system batch_size = do
    polled ← poll (st.poll_action (lit "system") batch_size)
    on_polled
        (λ actions. do
          for_each (λ a. execute_system_action st md lib a.workflow_name a.flow_id a.action_id)
              actions
          acked ← call (st.ack (lit "system") actions)
          pure tt)
        polled

  -- delayExecutor.handle
  unfoldable pub handle_delay : Exec (World S) Bool
  handle_delay = do
    polled ← poll st.poll_delay
    on_polled (for_each (λ a. execute_delay st md a.workflow_name a.flow_id a.action_id)) polled

  -- retryExecutor.handle
  unfoldable pub handle_retry : Exec (World S) Bool
  handle_retry = do
    polled ← poll st.poll_retry
    on_polled (for_each (λ a. execute_retry st md a.workflow_name a.flow_id a.action_id)) polled

  -- timeoutExecutor.handle
  unfoldable pub handle_timeout : Exec (World S) Bool
  handle_timeout = do
    polled ← poll st.poll_timeout
    on_polled
        (for_each
          (λ a. retry_timedout_action st md a.workflow_name a.flow_id a.action_name a.action_id))
        polled
