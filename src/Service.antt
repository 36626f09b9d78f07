-- ===== src/Service.antt =====
-- The package service: the results of the workers, and the requests of the REST interface.
pub mod Polls
use orchy.Base.{
  ℤ, pos, ltb_ℤ, Text, lit, Bool, true, false, if◌then◌else◌, Option, none, some, List, [], ◌∷◌,
  Outcome, returned, panicked, Exec, pure, panic, ◌>>=◌, ◌>>◌,
}
use orchy.Model.{Result, ok, err, FlowContext, ActionDefinition}
use orchy.Model.Value.{Fields}
use orchy.Action.{seconds}
use orchy.Shard.Storage.{Storage}
use orchy.Shard.Container.{MetadataService, ActionRecord, success, failure, record_action}
use orchy.Executor.Users.{ExternalQueue}
use orchy.Persistence.Queue.{WorkerAction}
use orchy.Cluster.Ring.{Consistent}
use orchy.Cluster.Shards.{Cluster}
use orchy.Cluster.Requests.{
  cluster_poll, cluster_timeout, cluster_execute_action, cluster_retry_action, cluster_init,
  cluster_get_flow, cluster_execute_resume, cluster_mark_paused, cluster_execute_resume_after_wait,
}

-- api.ActionResult of api/v1/flow.proto; the result's data is converted by ConvertFromProto.
pub data Status : Type 0 where
  succeeded fail : Status

pub record ActionResult : Type 0 where
  pub workflow_name : Text
  pub action_name : Text
  pub flow_id : Text
  pub action_id : ℤ
  pub result_data : Fields
  pub status : Status

module _ {H S Q : Type 0} (lib : Consistent H) (shuffle : List ℤ → List ℤ) (st : Text → Storage S)
    (md : MetadataService) (external : Text → ExternalQueue Q) where
  abbrev watch : WorkerAction → Result ActionDefinition → Exec (Cluster H S Q) (Unit {0})
  watch action (err e) = panic
  watch action (ok d) =
      if ltb_ℤ (pos 1) d.retry_count
      then (do
        r ←
            cluster_timeout lib shuffle st md external action.workflow_name action.flow_id
              action.action_name action.action_id (seconds d.timeout_seconds)
        pure tt)
      else pure tt

  -- The loop of Poll: a missing definition is a nil pointer, of which a field is read.
  unfoldable pub watch_each : List WorkerAction → Exec (Cluster H S Q) (Unit {0})
  watch_each [] = pure tt
  watch_each (action ∷ actions) =
      watch action (md.get_action_definition action.action_name) >> watch_each actions

  -- ActionExecutionService.Poll
  unfoldable pub poll : Text → ℤ → Exec (Cluster H S Q) (List WorkerAction)
  poll name batch_size = do
    actions ← cluster_poll lib shuffle st md external name batch_size
    watch_each actions
    pure actions

  abbrev collect : ActionRecord → Exec (Cluster H S Q) (Unit {0})
  collect r c = (returned tt, record c { records = r ∷ c.records })

  abbrev on_status : Status → ActionResult → Exec (Cluster H S Q) (Unit {0})
  on_status succeeded r = do
    collect (success r.workflow_name r.flow_id r.action_name r.action_id (some r.result_data))
    cluster_execute_action lib shuffle st md external r.workflow_name r.flow_id (lit "default")
        r.action_id (some r.result_data)
  on_status fail r = do
    collect (failure r.workflow_name r.flow_id r.action_name r.action_id (lit "worker failed"))
    cluster_retry_action lib shuffle st md external r.workflow_name r.flow_id r.action_name
        r.action_id

  -- HandleActionResult, and Push.
  unfoldable pub handle_action_result : ActionResult → Exec (Cluster H S Q) (Result (Unit {0}))
  handle_action_result r = on_status r.status r >> pure (ok tt)

  -- StartFlow, with the UUID that is drawn.
  unfoldable pub start_flow : Text → Text → Fields → Exec (Cluster H S Q) (Result Text)
  start_flow flow_id name input = cluster_init lib shuffle st md external flow_id name input

  -- WorkflowExecutionService.GetFlow
  unfoldable pub service_get_flow : Text → Text → Exec (Cluster H S Q) (Result FlowContext)
  service_get_flow name flow_id = cluster_get_flow lib shuffle st md external name flow_id

  -- ResumeFlow
  unfoldable pub resume_flow : Text → Text → Exec (Cluster H S Q) (Result (Unit {0}))
  resume_flow name flow_id =
      cluster_execute_resume lib shuffle st md external name flow_id (lit "default") >> pure (ok tt)

  -- PauseFlow
  unfoldable pub pause_flow : Text → Text → Exec (Cluster H S Q) (Result (Unit {0}))
  pause_flow name flow_id =
      cluster_mark_paused lib shuffle st md external name flow_id >> pure (ok tt)

  -- ConsumeEvent
  unfoldable pub consume_event : Text → Text → Text → Exec (Cluster H S Q) (Result (Unit {0}))
  consume_event name flow_id event =
      cluster_execute_resume_after_wait lib shuffle st md external name flow_id event
