-- ===== src/Rest/Flows.antt =====
-- The handlers of rest/handler_workflow.go and rest/handler_event.go, over the cluster. What was
-- written of a response before a panic is lost: net/http closes the connection.
use orchy.Base.{ℤ, Text, lit, List, Exec, pure, ◌>>=◌}
use orchy.Model.{Result, ok, err, FlowContext}
use orchy.Shard.Storage.{Storage}
use orchy.Shard.Container.{MetadataService}
use orchy.Executor.Users.{ExternalQueue}
use orchy.Cluster.Ring.{Consistent}
use orchy.Cluster.Shards.{Cluster}
use orchy.Service.{start_flow, service_get_flow, resume_flow, pause_flow, consume_event}
use orchy.Rest.{flow_execution}
use orchy.Rest.Response.{
  Response, no_response, respond_with_json, respond_ok, respond_ok_without_body, respond_with_error,
  started, execution,
}
use orchy.Rest.Definitions.{Request, Decoder, checked, name_and_id}

abbrev pub on_started : Response → Result Text → Response
on_started w (err e) = respond_with_error 400 (lit "error running workflow") w
on_started w (ok flow_id) = respond_ok (started flow_id) w

abbrev pub on_done : Text → Response → Result (Unit {0}) → Response
on_done message w (err e) = respond_with_error 400 message w
on_done message w (ok u) = respond_ok_without_body w

abbrev pub on_found : Response → Result FlowContext → Response
on_found w (err e) = respond_with_error 400 (lit "flow execution not found") w
on_found w (ok ctx) = respond_with_json 200 (execution (flow_execution ctx)) w

module _ {H S Q : Type 0} (lib : Consistent H) (shuffle : List ℤ → List ℤ) (st : Text → Storage S)
    (md : MetadataService) (external : Text → ExternalQueue Q) (decoder : Decoder) where
  -- HandleRunFlow, with the UUID that is drawn for the flow.
  unfoldable pub handle_run_flow : Text → Request → Exec (Cluster H S Q) Response
  handle_run_flow uuid req =
      let (run, fine) = decoder.run_request req.body in
      (do
        r ← start_flow lib shuffle st md external uuid run.name run.input
        pure (on_started (checked fine no_response) r))

  -- HandlePauseFlow
  unfoldable pub handle_pause_flow : Request → Exec (Cluster H S Q) Response
  handle_pause_flow req =
      let (name, flow_id, w) = name_and_id req in
      (do
        r ← pause_flow lib shuffle st md external name flow_id
        pure (on_done (lit "error consuming event workflow") w r))

  -- HandleResumeFlow
  unfoldable pub handle_resume_flow : Request → Exec (Cluster H S Q) Response
  handle_resume_flow req =
      let (name, flow_id, w) = name_and_id req in
      (do
        r ← resume_flow lib shuffle st md external name flow_id
        pure (on_done (lit "error consuming event workflow") w r))

  -- HandleGetFlowExecution
  unfoldable pub handle_get_flow_execution : Request → Exec (Cluster H S Q) Response
  handle_get_flow_execution req =
      let (name, flow_id, w) = name_and_id req in
      (do r ← service_get_flow lib shuffle st md external name flow_id; pure (on_found w r))

  -- HandleEvent
  unfoldable pub handle_event : Request → Exec (Cluster H S Q) Response
  handle_event req =
      let (e, fine) = decoder.event req.body in
      (do
        r ← consume_event lib shuffle st md external e.name e.flow_id e.event
        pure (on_done (lit "error consuming event workflow") (checked fine no_response) r))
