-- ===== src/Shard/Requests/Guards.antt =====
-- The guards of the engine: an action that was executed, a paused flow, an event that is not
-- awaited.
use orchy.Base.{
  ℤ, int_eq, Text, text_eq, Bool, Option, none, some, returned, ◌≡◌, arith, ◌≢◌, text_beq_iff,
}
use orchy.Base.Map.{lookup}
use orchy.Model.{Result, ok, FlowContext, paused}
use orchy.Model.Value.{Fields}
use orchy.Action.{Libs}
use orchy.Shard.Storage.{Storage}
use orchy.Shard.Machine.{FlowStateMachine, validate}
use orchy.Shard.Container.{MetadataService, World, get, call, cached, store}
use orchy.Shard.Engine.{Step, with_valid, execute, execute_action}
use orchy.Shard.Engine.Delays.{
  delay_action, execute_delay, execute_retry, retry_failed_action, retry_timedout_action,
}
use orchy.Shard.Engine.Resume.{execute_resume_after_wait}
use orchy.Shard.Engine.System.{execute_system_action}
use orchy.Shard.Requests.{
  Request, action_done, action_failed, action_timedout, system_action, put_off, delay_over,
  retry_due, resume, consume, serve,
}

-- The action that a request is about, if it is about one.
abbrev pub target : Request → Option ℤ
target (action_done event a data_map) = some a
target (action_failed name a) = some a
target (action_timedout name a) = some a
target (system_action a) = some a
target (put_off name a d) = some a
target (delay_over a) = some a
target (retry_due a) = some a
target (resume event) = none
target (consume event) = none

module _ {S : Type 0} (st : Storage S) (md : MetadataService) (wf id : Text) (w : World S)
    (c : FlowContext) (stored : (st.get_flow_context wf id w.storage).0 ≡ ok c) where
  with_valid_executed :
      (a : ℤ) (b : Bool) (f : FlowStateMachine → Step st md)
      → lookup a c.executed_actions ≡ some b
      → ((with_valid st md wf id a f w).1.storage ≡ (st.get_flow_context wf id w.storage).1)
        × ((with_valid st md wf id a f w).1.records ≡ w.records)
  unfolding get call cached store validate
  with_valid_executed a b f done = ground arith

  -- A request about an action that the stored context lists as executed does nothing but read the
  -- context: no action is executed twice, and its late failures, timeouts and retries are ignored.
  pub serve-executed :
      (lib : Libs) (r : Request) (a : ℤ) (b : Bool)
      → target r ≡ some a
      → lookup a c.executed_actions ≡ some b
      → ((serve st md lib wf id r w).1.storage ≡ (st.get_flow_context wf id w.storage).1)
        × ((serve st md lib wf id r w).1.records ≡ w.records)
  unfolding serve execute_action execute retry_failed_action retry_timedout_action
      execute_system_action delay_action execute_delay execute_retry
  serve-executed lib (action_done event k data_map) a b t done =
      with_valid_executed k b _ (ground arith)
  serve-executed lib (action_failed name k) a b t done = with_valid_executed k b _ (ground arith)
  serve-executed lib (action_timedout name k) a b t done = with_valid_executed k b _ (ground arith)
  serve-executed lib (system_action k) a b t done = with_valid_executed k b _ (ground arith)
  serve-executed lib (put_off name k d) a b t done = with_valid_executed k b _ (ground arith)
  serve-executed lib (delay_over k) a b t done = with_valid_executed k b _ (ground arith)
  serve-executed lib (retry_due k) a b t done = with_valid_executed k b _ (ground arith)
  serve-executed lib (resume event) a b t done = cc
  serve-executed lib (consume event) a b t done = cc

  -- While the stored context is paused, neither a worker's result nor the end of a delay moves the
  -- flow: the context is read, and nothing else happens to the storage.
  pub execute_action-paused :
      (event : Text) (a : ℤ) (data_map : Option Fields)
      → c.state ≡ paused
      → ((execute_action st md wf id event a data_map w).1.storage
          ≡ (st.get_flow_context wf id w.storage).1)
        × ((execute_delay st md wf id a w).1.storage ≡ (st.get_flow_context wf id w.storage).1)
  unfolding get call cached store validate execute_action execute_delay execute
  execute_action-paused event a data_map p = (ground arith, ground arith)

  -- An event that the stored context does not name is refused: unless the flow's definition
  -- crashes, the caller gets an error, and the storage is only read.
  pub execute_resume_after_wait-mismatch :
      (event : Text) (r : Result (Unit {0}))
      → c.event ≢ event
      → (execute_resume_after_wait st md wf id event w).0 ≡ returned r
      → ((execute_resume_after_wait st md wf id event w).1.storage
          ≡ (st.get_flow_context wf id w.storage).1)
        × (r ≢ ok tt)
  unfolding get call cached store execute_resume_after_wait
  execute_resume_after_wait-mismatch event r ne h = ground (arith, text_beq_iff c.event event)
