-- ===== src/Shard/Requests/Settled.antt =====
-- A flow that has completed or failed is left alone.
use orchy.Base.{ℤ, Text, true, ◌≡◌, arith}
use orchy.Model.{ok, FlowContext}
use orchy.Action.{Libs}
use orchy.Shard.Storage.{Storage}
use orchy.Shard.Machine.{FlowStateMachine, is_terminal, validate}
use orchy.Shard.Container.{MetadataService, World, get, call, cached, store}
use orchy.Shard.Engine.{Step, with_valid, execute, execute_action}
use orchy.Shard.Engine.Delays.{
  delay_action, execute_delay, execute_retry, retry_failed_action, retry_timedout_action,
}
use orchy.Shard.Engine.Resume.{execute_resume, execute_resume_after_wait}
use orchy.Shard.Engine.System.{execute_system_action}
use orchy.Shard.Requests.{
  Request, action_done, action_failed, action_timedout, system_action, put_off, delay_over,
  retry_due, resume, consume, serve,
}

module _ {S : Type 0} (st : Storage S) (md : MetadataService) (wf id : Text) (w : World S)
    (c : FlowContext) (stored : (st.get_flow_context wf id w.storage).0 ≡ ok c)
    (settled : is_terminal c.state ≡ true) where
  with_valid_settled :
      (a : ℤ) (f : FlowStateMachine → Step st md)
      → ((with_valid st md wf id a f w).1.storage ≡ (st.get_flow_context wf id w.storage).1)
        × ((with_valid st md wf id a f w).1.records ≡ w.records)
  unfolding get call cached store validate
  with_valid_settled a f = ground arith

  resume_settled :
      (event : Text)
      → ((execute_resume st md wf id event w).1.storage ≡ (st.get_flow_context wf id w.storage).1)
        × ((execute_resume st md wf id event w).1.records ≡ w.records)
  unfolding get call cached store execute_resume
  resume_settled event = ground arith

  consume_settled :
      (lib : Libs) (event : Text)
      → ((serve st md lib wf id (consume event) w).1.storage
          ≡ (st.get_flow_context wf id w.storage).1)
        × ((serve st md lib wf id (consume event) w).1.records ≡ w.records)
  unfolding get call cached store serve execute_resume_after_wait
  consume_settled lib event = ground arith

  -- Whatever is requested of a flow whose stored context is completed or failed, the engine reads
  -- the context and does nothing else: the storage is as the read left it, and nothing is recorded.
  pub serve-settled :
      (lib : Libs) (r : Request)
      → ((serve st md lib wf id r w).1.storage ≡ (st.get_flow_context wf id w.storage).1)
        × ((serve st md lib wf id r w).1.records ≡ w.records)
  unfolding serve execute_action execute retry_failed_action retry_timedout_action
      execute_system_action delay_action execute_delay execute_retry
  serve-settled lib (action_done event a data_map) = with_valid_settled a _
  serve-settled lib (action_failed name a) = with_valid_settled a _
  serve-settled lib (action_timedout name a) = with_valid_settled a _
  serve-settled lib (system_action a) = with_valid_settled a _
  serve-settled lib (put_off name a d) = with_valid_settled a _
  serve-settled lib (delay_over a) = with_valid_settled a _
  serve-settled lib (retry_due a) = with_valid_settled a _
  serve-settled lib (resume event) = resume_settled event
  serve-settled lib (consume event) = consume_settled lib event
