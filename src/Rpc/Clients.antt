-- ===== src/Rpc/Clients.antt =====
-- The calls of clients for one flow, in any order: results that workers push (rpc/api.go), and
-- requests to pause, to resume and of an event (rest/handler_workflow.go, rest/handler_event.go).
pub mod Stepwise
use orchy.Base.{
  ℤ, int_eq, int_beq_iff, Text, text_eq, lit, Bool, Option, none, some, List, [], ◌∷◌, Outcome,
  returned, panicked, continue, pure, Exec, ◌≡◌, refl, sym, ap, ◌∙◌, arith,
}
use orchy.Base.Map.{lookup, insert, lookup-insert}
use orchy.Model.{Error, ok, FlowContext}
use orchy.Action.{Libs}
use orchy.Flow.{Flow}
use orchy.Shard.Storage.{Storage}
use orchy.Shard.Storage.Reliable.{Reliable}
use orchy.Shard.Container.{World}
use orchy.Shard.Engine.{mark_paused}
use orchy.Shard.Engine.Resume.{execute_resume, execute_resume_after_wait}
use orchy.Shard.Effect.Read.{IsCurrent}
use orchy.Shard.Requests.{resume, consume, serve}
use orchy.Shard.Steps.{Moves, here, then_move}
use orchy.Shard.Steps.Serve.{
  Event, requested, pause_asked, happen, run, run_own-Moves, run-IsCurrent,
}
use orchy.Executor.Users.{ExternalQueue, engine}
use orchy.Metadata.Store.{MetadataStore, service_of}
use orchy.Cluster.Requests.{world_of}
use orchy.Cluster.Ring.{Consistent, get_partition}
use orchy.Cluster.Shards.{Cluster, Shard}
use orchy.Cluster.Requests.{
  on_shard, for_flow, cluster_execute_resume, cluster_mark_paused,
  cluster_execute_resume_after_wait,
}
use orchy.Service.{ActionResult, resume_flow, pause_flow, consume_event}
use orchy.Rest.Definitions.{Request, Decoder, name_and_id}
use orchy.Rest.Flows.{handle_pause_flow, handle_resume_flow, handle_event}
use orchy.Rest.Routes.{
  Endpoint, ServerState, on_cluster, serve_http, pausing_flow, resuming_flow, consuming_event,
}
use orchy.Rpc.{Reply, rpc_push}

module _ {H S Q R : Type 0} (hash_ring : Consistent H) (shuffle : List ℤ → List ℤ)
    (st : Text → Storage S) (store : MetadataStore R) (external : Text → ExternalQueue Q)
    (lib : Libs) (decoder : Decoder) (message : Error → Text) (wf id : Text) where
  abbrev pub http : Endpoint → Request → ServerState H S Q R → ServerState H S Q R
  http e req n = (serve_http hash_ring shuffle st store external lib decoder message e req n).1

  -- A call about the flow, and the node after it, also if it panics.
  pub data ClientStep (n : ServerState H S Q R) : ServerState H S Q R → Type 0 where
    result_pushed :
        (r : ActionResult)
        → ClientStep n
            (rpc_push hash_ring shuffle st store external
              (record r { workflow_name = wf; flow_id = id })
              n).1
    pause_requested :
        (req : Request)
        → (name_and_id req).0 ≡ wf
        → (name_and_id req).1 ≡ id
        → ClientStep n (http pausing_flow req n)
    resume_requested :
        (req : Request)
        → (name_and_id req).0 ≡ wf
        → (name_and_id req).1 ≡ id
        → ClientStep n (http resuming_flow req n)
    event_sent :
        (req : Request)
        → (decoder.event req.body).0.name ≡ wf
        → (decoder.event req.body).0.flow_id ≡ id
        → ClientStep n (http consuming_event req n)

  -- Any number of calls.
  pub data ClientRun (n : ServerState H S Q R) : ServerState H S Q R → Type 0 where
    no_call : ClientRun n n
    then_call :
        {n' n'' : ServerState H S Q R} → ClientRun n n' → ClientStep n' n'' → ClientRun n n''

  abbrev pub owner : ServerState H S Q R → Option Shard
  owner n = lookup (get_partition hash_ring shuffle n.cluster.ring id) n.cluster.shards

  -- What the shard of the flow's partition has stored for the flow.
  abbrev pub view_of :
      ((shard_id : Text) → Reliable (st shard_id))
      → ServerState H S Q R
      → Option Shard
      → Option FlowContext
  view_of rel n none = none
  view_of rel n (some sh) = (rel sh.id).view n.cluster.storage wf id

  abbrev pub stored_in :
      ((shard_id : Text) → Reliable (st shard_id)) → ServerState H S Q R → Option FlowContext
  stored_in rel n = view_of rel n (owner n)

  -- The node has the shard of the flow's partition; GetFlow returns the flow, and its machine, if
  -- one is cached in that shard, runs that flow.
  pub record IsReady (fl : Flow) (n : ServerState H S Q R) : Type 0 where
    pub shard : Shard
    pub there : owner n ≡ some shard
    pub defined : (service_of store n.metadata).get_flow wf id ≡ some (ok fl)
    pub current : IsCurrent wf id fl (world_of n.cluster shard)
