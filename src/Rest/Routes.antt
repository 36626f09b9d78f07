-- ===== src/Rest/Routes.antt =====
-- The router of rest/server.go, and the handler that serves a request on the state of a node.
-- gorilla/mux, which chooses a route and reads the variables of its path, is outside the repository.
use orchy.Base.{ℤ, Text, lit, List, [], ◌∷◌, returned, Exec}
use orchy.Model.{Error}
use orchy.Action.{Libs}
use orchy.Shard.Storage.{Storage}
use orchy.Executor.Users.{ExternalQueue}
use orchy.Metadata.Store.{MetadataStore, service_of}
use orchy.Cluster.Ring.{Consistent}
use orchy.Cluster.Shards.{Cluster}
use orchy.Rest.Response.{Response}
use orchy.Rest.Definitions.{
  Request, Decoder, handle_create_flow, handle_get_flow, handle_create_action_definition,
  handle_get_action_definition,
}
use orchy.Rest.Flows.{
  handle_run_flow, handle_pause_flow, handle_resume_flow, handle_get_flow_execution, handle_event,
}

-- The handlers, of which running a flow takes the UUID that is drawn.
pub data Endpoint : Type 0 where
  creating_flow showing_flow creating_definition showing_definition : Endpoint
  running_flow : Text → Endpoint
  showing_execution pausing_flow resuming_flow consuming_event : Endpoint

-- The routes of NewServer: method, path, handler.
abbrev pub routes : Text → List (Text × Text × Endpoint)
routes uuid =
    (lit "POST", lit "/metadata/workflow", creating_flow)
    ∷ (lit "GET", lit "/metadata/workflow/{name}", showing_flow)
    ∷ (lit "POST", lit "/metadata/action", creating_definition)
    ∷ (lit "GET", lit "/metadata/action/{name}", showing_definition)
    ∷ (lit "POST", lit "/execution", running_flow uuid)
    ∷ (lit "GET", lit "/execution/{name}/{id}", showing_execution)
    ∷ (lit "GET", lit "/execution/{name}/{id}/pause", pausing_flow)
    ∷ (lit "GET", lit "/execution/{name}/{id}/resume", resuming_flow)
    ∷ (lit "POST", lit "/event", consuming_event)
    ∷ []

-- What a node's servers work on: its cluster, and the storage of the metadata.
pub record ServerState (H S Q R : Type 0) : Type 0 where
  pub cluster : Cluster H S Q
  pub metadata : R

module _ {H S Q R : Type 0} where
  -- A request of the metadata, which does not panic.
  unfoldable pub on_metadata : (R → Response × R) → Exec (ServerState H S Q R) Response
  on_metadata f n = let (w, s) = f n.metadata in (returned w, record n { metadata = s })

  unfoldable pub on_cluster : {A : Type 0} → Exec (Cluster H S Q) A → Exec (ServerState H S Q R) A
  on_cluster f n = let (r, c) = f n.cluster in (r, record n { cluster = c })

module _ {H S Q R : Type 0} (hash_ring : Consistent H) (shuffle : List ℤ → List ℤ)
    (st : Text → Storage S) (store : MetadataStore R) (external : Text → ExternalQueue Q)
    (lib : Libs) (decoder : Decoder) (message : Error → Text) where
  -- The handler of a route.
  unfoldable pub serve_http : Endpoint → Request → Exec (ServerState H S Q R) Response
  serve_http creating_flow req n = on_metadata (handle_create_flow store lib decoder message req) n
  serve_http showing_flow req n = on_metadata (handle_get_flow store lib decoder message req) n
  serve_http creating_definition req n =
      on_metadata (handle_create_action_definition store lib decoder message req) n
  serve_http showing_definition req n =
      on_metadata (handle_get_action_definition store lib decoder message req) n
  serve_http (running_flow uuid) req n =
      on_cluster
        (handle_run_flow hash_ring shuffle st (service_of store n.metadata) external decoder uuid
          req)
        n
  serve_http showing_execution req n =
      on_cluster
        (handle_get_flow_execution hash_ring shuffle st (service_of store n.metadata) external
          decoder req)
        n
  serve_http pausing_flow req n =
      on_cluster
        (handle_pause_flow hash_ring shuffle st (service_of store n.metadata) external decoder req)
        n
  serve_http resuming_flow req n =
      on_cluster
        (handle_resume_flow hash_ring shuffle st (service_of store n.metadata) external decoder req)
        n
  serve_http consuming_event req n =
      on_cluster
        (handle_event hash_ring shuffle st (service_of store n.metadata) external decoder req) n
