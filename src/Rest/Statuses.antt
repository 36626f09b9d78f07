-- ===== src/Rest/Statuses.antt =====
-- The statuses of the responses of the package rest.
use orchy.Base.{ℤ, Text, text_eq, Bool, true, false, if◌then◌else◌, some, List, returned, ◌≡◌}
use orchy.Model.{Error}
use orchy.Action.{Libs}
use orchy.Shard.Storage.{Storage}
use orchy.Executor.Users.{ExternalQueue}
use orchy.Metadata.Store.{MetadataStore, service_of}
use orchy.Cluster.Ring.{Consistent}
use orchy.Rest.Response.{Response}
use orchy.Rest.Definitions.{
  Request, Decoder, handle_create_flow, handle_get_flow, handle_create_action_definition,
  handle_get_action_definition,
}
use orchy.Rest.Routes.{
  Endpoint, creating_flow, showing_flow, creating_definition, showing_definition, running_flow,
  showing_execution, pausing_flow, resuming_flow, consuming_event, ServerState, on_metadata,
  on_cluster, serve_http,
}
use orchy.Rest.Answers.{IsAnswer, has_both, metadata_returned, cluster_returned, status-IsAnswer}
use orchy.Rest.Commands.{
  run-status, pause-status, resume-status, execution-IsAnswer, event-IsAnswer,
}
use orchy.Rest.Replies.{
  handle_create_flow-IsAnswer, handle_get_flow-IsAnswer, handle_create_action_definition-IsAnswer,
  handle_get_action_definition-IsAnswer,
}

-- The handlers that start, pause and resume a flow, and whether they can read the request.
unfoldable pub is_command : Endpoint → Bool
is_command (running_flow uuid) = true
is_command pausing_flow = true
is_command resuming_flow = true
is_command _ = false

unfoldable pub can_read : Decoder → Endpoint → Request → Bool
can_read decoder (running_flow uuid) req = (decoder.run_request req.body).1
can_read decoder _ req = has_both req

module _ {H S Q R : Type 0} (hash_ring : Consistent H) (shuffle : List ℤ → List ℤ)
    (st : Text → Storage S) (store : MetadataStore R) (external : Text → ExternalQueue Q)
    (lib : Libs) (decoder : Decoder) (message : Error → Text) where
  -- The requests that start, pause or resume a flow are answered, unless the node panics, with the
  -- status 200 when the request can be read and with 400 when it cannot: whether there is such a
  -- workflow or such a flow, and whether a call of the storage fails, does not show in the status.
  pub serve_http-status :
      (h : Endpoint) (req : Request) (n n' : ServerState H S Q R) (w : Response)
      → is_command h ≡ true
      → serve_http hash_ring shuffle st store external lib decoder message h req n
        ≡ (returned w, n')
      → w.status ≡ some (if can_read decoder h req then 200 else 400)
  unfolding serve_http on_cluster is_command can_read
  serve_http-status (running_flow uuid) req n n' w command h =
      (run-status hash_ring shuffle st (service_of store n.metadata) external decoder uuid req
        n.cluster _ w (cluster_returned _ n h)).0
  serve_http-status pausing_flow req n n' w command h =
      (pause-status hash_ring shuffle st (service_of store n.metadata) external decoder req
        n.cluster _ w (cluster_returned _ n h)).0
  serve_http-status resuming_flow req n n' w command h =
      (resume-status hash_ring shuffle st (service_of store n.metadata) external decoder req
        n.cluster _ w (cluster_returned _ n h)).0
  serve_http-status creating_flow req n n' w command h = cc
  serve_http-status showing_flow req n n' w command h = cc
  serve_http-status creating_definition req n n' w command h = cc
  serve_http-status showing_definition req n n' w command h = cc
  serve_http-status showing_execution req n n' w command h = cc
  serve_http-status consuming_event req n n' w command h = cc

  -- Every response of every handler has the status 200 or 400, and one body at most, although a
  -- handler goes on after it has answered that it cannot read the request.
  pub serve_http-IsAnswer :
      (h : Endpoint) (req : Request) (n n' : ServerState H S Q R) (w : Response)
      → serve_http hash_ring shuffle st store external lib decoder message h req n
        ≡ (returned w, n')
      → IsAnswer w
  unfolding serve_http on_cluster on_metadata
  serve_http-IsAnswer (running_flow uuid) req n n' w h =
      status-IsAnswer (decoder.run_request req.body).1 w (
        run-status hash_ring shuffle st (service_of store n.metadata) external decoder uuid req
          n.cluster _ w (cluster_returned _ n h))
  serve_http-IsAnswer pausing_flow req n n' w h = status-IsAnswer (has_both req) w (
      pause-status hash_ring shuffle st (service_of store n.metadata) external decoder req n.cluster
        _ w (cluster_returned _ n h))
  serve_http-IsAnswer resuming_flow req n n' w h = status-IsAnswer (has_both req) w (
      resume-status hash_ring shuffle st (service_of store n.metadata) external decoder req
        n.cluster _ w (cluster_returned _ n h))
  serve_http-IsAnswer showing_execution req n n' w h =
      execution-IsAnswer hash_ring shuffle st (service_of store n.metadata) external decoder req
        n.cluster _ w (cluster_returned _ n h)
  serve_http-IsAnswer consuming_event req n n' w h =
      event-IsAnswer hash_ring shuffle st (service_of store n.metadata) external decoder req
        n.cluster _ w (cluster_returned _ n h)
  serve_http-IsAnswer creating_flow req n n' w h =
      rw (metadata_returned (handle_create_flow store lib decoder message req n.metadata) n h)
        (handle_create_flow-IsAnswer store lib decoder message req n.metadata)
  serve_http-IsAnswer showing_flow req n n' w h =
      rw (metadata_returned (handle_get_flow store lib decoder message req n.metadata) n h)
        (handle_get_flow-IsAnswer store lib decoder message req n.metadata)
  serve_http-IsAnswer creating_definition req n n' w h =
      rw
        (metadata_returned
          (handle_create_action_definition store lib decoder message req n.metadata) n h)
        (handle_create_action_definition-IsAnswer store lib decoder message req n.metadata)
  serve_http-IsAnswer showing_definition req n n' w h =
      rw
        (metadata_returned (handle_get_action_definition store lib decoder message req n.metadata) n
          h)
        (handle_get_action_definition-IsAnswer store lib decoder message req n.metadata)
