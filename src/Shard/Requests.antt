-- ===== src/Shard/Requests.antt =====
-- The requests that reach the engine of shard/engine.go for one flow: from the workers
-- (service/action_execution_service.go), the executors (shard/executor) and the REST interface.
pub mod Settled
pub mod Guards
use orchy.Base.{ℤ, Text, Bool, false, Option, ◌>>=◌, pure}
use orchy.Model.Value.{Fields}
use orchy.Action.{Libs}
use orchy.Shard.Storage.{Storage}
use orchy.Shard.Container.{MetadataService}
use orchy.Shard.Engine.{Step, execute_action}
use orchy.Shard.Engine.Delays.{
  delay_action, execute_delay, execute_retry, retry_failed_action, retry_timedout_action,
}
use orchy.Shard.Engine.Resume.{execute_resume, execute_resume_after_wait}
use orchy.Shard.Engine.System.{execute_system_action}

pub data Request : Type 0 where
  -- A worker's result: the event and the output of an action.
  action_done : Text → ℤ → Option Fields → Request
  -- A worker's failure, and an action whose time is up.
  action_failed action_timedout : Text → ℤ → Request
  -- A system action that the queue hands out.
  system_action : ℤ → Request
  -- An action put off, and the end of a delay and of a retry's wait.
  put_off : Text → ℤ → ℤ → Request
  delay_over retry_due : ℤ → Request
  -- From the REST interface: go on after a pause, and an event from outside.
  resume consume : Text → Request

module _ {S : Type 0} (st : Storage S) (md : MetadataService) (lib : Libs) where
  -- The operation of the engine that serves a request.
  unfoldable pub serve : Text → Text → Request → Step st md
  serve wf id (action_done event a data_map) = execute_action st md wf id event a data_map
  serve wf id (action_failed name a) = retry_failed_action st md wf id name a
  serve wf id (action_timedout name a) = retry_timedout_action st md wf id name a
  serve wf id (system_action a) = execute_system_action st md lib wf id a
  serve wf id (put_off name a d) = delay_action st md wf id name a d
  serve wf id (delay_over a) = execute_delay st md wf id a
  serve wf id (retry_due a) = execute_retry st md wf id a
  serve wf id (resume event) = execute_resume st md wf id event
  serve wf id (consume event) = do r ← execute_resume_after_wait st md wf id event; pure tt
