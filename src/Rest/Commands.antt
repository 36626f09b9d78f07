-- ===== src/Rest/Commands.antt =====
-- The responses of the handlers of flows (rest/handler_workflow.go, rest/handler_event.go).
use orchy.Base.{
  ◌≤◌, ℤ, Text, text_eq, lit, some, List, [], Outcome, returned, panicked, continue, ◌≡◌, length,
}
use orchy.Model.{Result, ok, err}
use orchy.Shard.Storage.{Storage}
use orchy.Shard.Container.{MetadataService}
use orchy.Shard.Engine.{init_flow}
use orchy.Executor.Users.{ExternalQueue}
use orchy.Cluster.Ring.{Consistent}
use orchy.Cluster.Shards.{Cluster}
use orchy.Cluster.Requests.{
  cluster_init, for_flow, started_with, cluster_mark_paused, cluster_execute_resume,
}
use orchy.Service.{start_flow, service_get_flow, resume_flow, pause_flow, consume_event}
use orchy.Rest.Response.{Response, no_response, started}
use orchy.Rest.Definitions.{Request, Decoder, checked, name_and_id}
use orchy.Rest.Flows.{
  on_started, on_done, on_found, handle_run_flow, handle_pause_flow, handle_resume_flow,
  handle_get_flow_execution, handle_event,
}
use orchy.Rest.Answers.{
  IsAnswer, has_both, name_and_id-checked, status_of, ok-status, bind-returned, done-status,
  done-IsAnswer, found-IsAnswer,
}

module _ {H S Q : Type 0} (hash_ring : Consistent H) (shuffle : List ℤ → List ℤ)
    (st : Text → Storage S) (md : MetadataService) (external : Text → ExternalQueue Q)
    (decoder : Decoder) where
  started_always :
      (id : Text) (m : Outcome (Result (Unit {0})) × Cluster H S Q) (c' : Cluster H S Q)
      (r : Result Text)
      → continue m.0 (started_with id) m.1 ≡ (returned r, c')
      → (flow_id : Text) × (r ≡ ok flow_id)
  started_always id (panicked, c) c' r h = cc
  started_always id (returned (ok u), c) c' r h = (id, cc)
  started_always id (returned (err e), c) c' r h = ([], cc)

  pub run-status :
      (uuid : Text) (req : Request) (c c' : Cluster H S Q) (w : Response)
      → handle_run_flow hash_ring shuffle st md external decoder uuid req c ≡ (returned w, c')
      → (w.status ≡ some (status_of (decoder.run_request req.body).1)) × (length w.body ≤ 1)
  unfolding handle_run_flow start_flow cluster_init
  run-status uuid req c c' w h =
      let (run, fine) = decoder.run_request req.body in
      let (r, e, made) =
        bind-returned (start_flow hash_ring shuffle st md external uuid run.name run.input c)
          (on_started (checked fine no_response)) h in
      let (id, e') =
        started_always uuid
          (for_flow hash_ring shuffle st md external uuid
            (λ shard_id. init_flow (st shard_id) md run.name uuid run.input) c)
          c' r e in
      rw (made, e') (ok-status fine (started id))

  pub pause-status :
      (req : Request) (c c' : Cluster H S Q) (w : Response)
      → handle_pause_flow hash_ring shuffle st md external decoder req c ≡ (returned w, c')
      → (w.status ≡ some (status_of (has_both req))) × (length w.body ≤ 1)
  unfolding handle_pause_flow pause_flow
  pause-status req c c' w h =
      let (name, id, before) = name_and_id req in
      let (r, e, made) =
        bind-returned (pause_flow hash_ring shuffle st md external name id c)
          (on_done (lit "error consuming event workflow") before) h in
      let (u, e', made') =
        bind-returned (cluster_mark_paused hash_ring shuffle st md external name id c) (λ _. ok tt)
          e in
      rw (made, made', name_and_id-checked req)
        (done-status (has_both req) (lit "error consuming event workflow") tt)

  pub resume-status :
      (req : Request) (c c' : Cluster H S Q) (w : Response)
      → handle_resume_flow hash_ring shuffle st md external decoder req c ≡ (returned w, c')
      → (w.status ≡ some (status_of (has_both req))) × (length w.body ≤ 1)
  unfolding handle_resume_flow resume_flow
  resume-status req c c' w h =
      let (name, id, before) = name_and_id req in
      let (r, e, made) =
        bind-returned (resume_flow hash_ring shuffle st md external name id c)
          (on_done (lit "error consuming event workflow") before) h in
      let (u, e', made') =
        bind-returned
          (cluster_execute_resume hash_ring shuffle st md external name id (lit "default") c)
          (λ _. ok tt) e in
      rw (made, made', name_and_id-checked req)
        (done-status (has_both req) (lit "error consuming event workflow") tt)

  pub execution-IsAnswer :
      (req : Request) (c c' : Cluster H S Q) (w : Response)
      → handle_get_flow_execution hash_ring shuffle st md external decoder req c ≡ (returned w, c')
      → IsAnswer w
  unfolding handle_get_flow_execution
  execution-IsAnswer req c c' w h =
      let (name, id, before) = name_and_id req in
      let (r, e, made) =
        bind-returned (service_get_flow hash_ring shuffle st md external name id c)
          (on_found before) h in
      rw (made, name_and_id-checked req) (found-IsAnswer (has_both req) r)

  pub event-IsAnswer :
      (req : Request) (c c' : Cluster H S Q) (w : Response)
      → handle_event hash_ring shuffle st md external decoder req c ≡ (returned w, c')
      → IsAnswer w
  unfolding handle_event
  event-IsAnswer req c c' w h =
      let (ev, fine) = decoder.event req.body in
      let (r, e, made) =
        bind-returned (consume_event hash_ring shuffle st md external ev.name ev.flow_id ev.event c)
          (on_done (lit "error consuming event workflow") (checked fine no_response)) h in
      rw made (done-IsAnswer fine (lit "error consuming event workflow") r)
