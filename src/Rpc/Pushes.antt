-- ===== src/Rpc/Pushes.antt =====
-- Push of rpc/api.go: what a worker's result makes of the shard of its flow.
use orchy.Base.{
  Text, ℤ, int_eq, lit, Bool, true, none, some, List, [], ◌∷◌, Outcome, returned, panicked,
  continue, pure, ◌≡◌, refl,
}
use orchy.Base.Map.{lookup, insert}
use orchy.Model.{ok}
use orchy.Action.{Libs}
use orchy.Flow.{Flow}
use orchy.Shard.Storage.{Storage}
use orchy.Shard.Storage.Reliable.{Reliable}
use orchy.Shard.Container.{World, ActionRecord, success, failure}
use orchy.Shard.Engine.{execute_action}
use orchy.Shard.Effect.Read.{IsCurrent}
use orchy.Shard.Requests.{Request, action_done, action_failed, serve}
use orchy.Shard.Steps.{Moves}
use orchy.Shard.Steps.Serve.{requested, happen, run, run_own-Moves}
use orchy.Executor.Users.{ExternalQueue, engine}
use orchy.Metadata.Store.{MetadataStore, service_of}
use orchy.Cluster.Ring.{Consistent, get_partition}
use orchy.Cluster.Shards.{Cluster, Shard}
use orchy.Cluster.Requests.{
  world_of, on_shard, for_flow, cluster_execute_action, cluster_retry_action,
}
use orchy.Service.{ActionResult, Status, succeeded, fail, handle_action_result}
use orchy.Rest.Routes.{ServerState, on_cluster}
use orchy.Rpc.{Reply, with_status, rpc_push}

-- What the engine is asked for with a result, by the result's status.
abbrev pub asked : Status → ActionResult → Request
asked succeeded r = action_done (lit "default") r.action_id (some r.result_data)
asked fail r = action_failed r.action_name r.action_id

-- What the data collector is told.
abbrev pub told : Status → ActionResult → ActionRecord
told succeeded r = success r.workflow_name r.flow_id r.action_name r.action_id (some r.result_data)
told fail r = failure r.workflow_name r.flow_id r.action_name r.action_id (lit "worker failed")

-- The answer: a success, unless the engine panics.
abbrev pub answered : Outcome (Unit {0}) → Outcome (Reply Bool)
answered panicked = panicked
answered (returned u) = returned (record { response = some true; error = none })

module _ {H S Q : Type 0} where
  -- The cluster after the engine of the shard `i` left the world `w`.
  abbrev pub left_with : Cluster H S Q → ℤ → Shard → World S → Cluster H S Q
  left_with c i sh w = record c {
    shards = insert i (record sh { machines = w.machines }) c.shards;
    storage = w.storage;
    records = w.records;
  }

-- What HandleActionResult and Push make of the engine's outcome.
pushed_lem :
    {C N : Type 0} (o : Outcome (Unit {0})) (c : C) (node : C → N)
    → (let (r, c') = continue o (λ _. pure (ok tt)) c in
        continue r (λ pushed. pure (with_status pushed)) (node c'))
      ≡ (answered o, node c)
pushed_lem (returned u) c node = refl
pushed_lem panicked c node = refl

module _ {H S Q R : Type 0} (hash_ring : Consistent H) (shuffle : List ℤ → List ℤ)
    (st : Text → Storage S) (store : MetadataStore R) (external : Text → ExternalQueue Q)
    (lib : Libs) where
  -- The cluster after the collector was told.
  abbrev informed_by : Status → ActionResult → Cluster H S Q → Cluster H S Q
  informed_by s r c = record c { records = told s r ∷ c.records }

  abbrev pub informed : ActionResult → Cluster H S Q → Cluster H S Q
  informed r c = informed_by r.status r c

  abbrev pub partition : ActionResult → ServerState H S Q R → ℤ
  partition r n = get_partition hash_ring shuffle n.cluster.ring r.flow_id

  abbrev served_by :
      Status → ActionResult → ServerState H S Q R → Shard → Outcome (Unit {0}) × World S
  served_by s r n sh =
      serve (st sh.id) (service_of store n.metadata) lib r.workflow_name r.flow_id (asked s r)
        (world_of (informed_by s r n.cluster) sh)

  -- What the engine of the shard makes of the result.
  abbrev pub served : ActionResult → ServerState H S Q R → Shard → Outcome (Unit {0}) × World S
  served r n sh = served_by r.status r n sh

  -- The node after it.
  abbrev pub after : ActionResult → ServerState H S Q R → Shard → ServerState H S Q R
  after r n sh = record n {
    cluster = left_with (informed r n.cluster) (partition r n) sh (served r n sh).1;
  }

  rpc_push-by_status :
      (s : Status) (r : ActionResult) (n : ServerState H S Q R) (sh : Shard)
      → r.status ≡ s
      → lookup (partition r n) n.cluster.shards ≡ some sh
      → rpc_push hash_ring shuffle st store external r n
        ≡ (answered (served r n sh).0, after r n sh)
  unfolding rpc_push on_cluster handle_action_result cluster_execute_action cluster_retry_action
      for_flow on_shard engine serve lookup execute_action insert
  rpc_push-by_status succeeded r n sh e h =
      rw (e, h)
        (pushed_lem (served_by succeeded r n sh).0
          (left_with (informed_by succeeded r n.cluster) (partition r n) sh
            (served_by succeeded r n sh).1)
          (λ c. record n { cluster = c }))
  rpc_push-by_status fail r n sh e h =
      rw (e, h)
        (pushed_lem (served_by fail r n sh).0
          (left_with (informed_by fail r n.cluster) (partition r n) sh (served_by fail r n sh).1)
          (λ c. record n { cluster = c }))

  pub rpc_push_lem :
      (r : ActionResult) (n : ServerState H S Q R) (sh : Shard)
      → lookup (partition r n) n.cluster.shards ≡ some sh
      → rpc_push hash_ring shuffle st store external r n
        ≡ (answered (served r n sh).0, after r n sh)
  rpc_push_lem r n sh h = rpc_push-by_status r.status r n sh refl h

  -- On a node that has the shard of the flow's partition, for a storage that does not fail, and a
  -- flow that GetFlow returns and that its machine, if one is cached in that shard, runs:
  -- Push of a result, a success or a failure, tells the data collector of it and gives it to the
  -- engine of that shard as the request of its status; beside what the engine does nothing of the
  -- node changes; Push answers `true` without an error unless the engine panics; and the stored
  -- context of the flow moves by steps of the relation Move.
  pub rpc_push-Moves :
      (r : ActionResult) (n : ServerState H S Q R) (sh : Shard) (rel : Reliable (st sh.id))
      (fl : Flow)
      → lookup (partition r n) n.cluster.shards ≡ some sh
      → (service_of store n.metadata).get_flow r.workflow_name r.flow_id ≡ some (ok fl)
      → IsCurrent r.workflow_name r.flow_id fl (world_of n.cluster sh)
      → (rpc_push hash_ring shuffle st store external r n
          ≡ (answered (served r n sh).0, after r n sh))
        × Moves fl
            (rel.view n.cluster.storage r.workflow_name r.flow_id)
            (rel.view (served r n sh).1.storage r.workflow_name r.flow_id)
  unfolding run happen
  rpc_push-Moves r n sh rel fl there defined cur = (
    rpc_push_lem r n sh there,
    run_own-Moves (st sh.id) rel (service_of store n.metadata) r.workflow_name r.flow_id fl defined
        lib (requested (asked r.status r) ∷ []) (world_of (informed r n.cluster) sh)
        (record { cached_flow = cur.cached_flow }),
  )
