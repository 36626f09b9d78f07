-- ===== src/Cluster/Requests.antt =====
-- cluster/cluster.go: the requests for a flow go to the engine of the flow's shard; a poll goes
-- through the queues of the node's own shards.
pub mod Bounds
use orchy.Base.{
  ℕ, zero, suc, ℤ, pos, negsuc, ◌+ℤ◌, ltb_ℤ, int_eq, Text, if◌then◌else◌, Option, none, some, List,
  [], ◌∷◌, ◌++◌, length, Outcome, returned, panicked, Exec, pure, panic, ◌>>=◌,
}
use orchy.Base.Map.{lookup, insert}
use orchy.Model.{Result, ok, err, FlowContext}
use orchy.Model.Value.{Fields}
use orchy.Shard.Storage.{Storage}
use orchy.Shard.Container.{MetadataService, World}
use orchy.Shard.Engine.{execute_action, init_flow, get_flow, mark_paused}
use orchy.Shard.Engine.Delays.{retry_failed_action}
use orchy.Shard.Engine.Resume.{execute_resume, execute_resume_after_wait}
use orchy.Executor.Users.{ShardState, ExternalQueue, engine, queued, stored}
use orchy.Persistence.Queue.{WorkerAction}
use orchy.Cluster.Ring.{Consistent, get_partition, get_partitions}
use orchy.Cluster.Shards.{Cluster, Shard}

module _ {H S Q : Type 0} where
  -- What the engine of a shard works on: the server's state and the collector are the cluster's.
  abbrev pub world_of : Cluster H S Q → Shard → World S
  world_of c sh = record { storage = c.storage; machines = sh.machines; records = c.records }

  -- A step of the shard with the number `i`, which is given the shard's id for its storage and its
  -- queue; a missing shard is a nil pointer.
  unfoldable pub on_shard :
      {A : Type 0} → ℤ → (Text → Exec (ShardState S Q) A) → Exec (Cluster H S Q) A
  on_shard i f c = elim (lookup i c.shards) [
    | none ↦ (panicked, c)
    | some sh ↦
        let (r, state) = f sh.id (record { world = world_of c sh; queue = c.queue }) in
        (
          r,
          record c {
            shards = insert i (record sh { machines = state.world.machines }) c.shards;
            storage = state.world.storage;
            queue = state.queue;
            records = state.world.records;
          },
        )
  ]

  abbrev pub on_engine : {A : Type 0} → ℤ → (Text → Exec (World S) A) → Exec (Cluster H S Q) A
  on_engine i f = on_shard i (λ shard_id. engine (f shard_id))

-- -len(result)
abbrev pub negative : ℕ → ℤ
negative zero = pos 0
negative (suc n) = negsuc n

-- batchSize - len(result)
abbrev pub room : {A : Type 0} → ℤ → List A → ℤ
room batch_size result = batch_size +ℤ negative (length result)

-- What Init makes of the engine's answer.
abbrev pub started_with : {C : Type 0} → Text → Result (Unit {0}) → Exec C (Result Text)
started_with flow_id (err e) = pure (ok [])
started_with flow_id (ok u) = pure (ok flow_id)

module _ {H S Q : Type 0} (lib : Consistent H) (shuffle : List ℤ → List ℤ) (st : Text → Storage S)
    (md : MetadataService) (external : Text → ExternalQueue Q) where
  -- A request for a flow, on the shard of the flow's partition.
  unfoldable pub for_flow : {A : Type 0} → Text → (Text → Exec (World S) A) → Exec (Cluster H S Q) A
  for_flow flow_id f c = on_engine (get_partition lib shuffle c.ring flow_id) f c

  -- ExecuteAction, RetryAction, ExecuteResume, GetFlow, MarkPaused and ExecuteResumeAfterWait.
  unfoldable pub cluster_execute_action :
      Text → Text → Text → ℤ → Option Fields → Exec (Cluster H S Q) (Unit {0})
  cluster_execute_action wf id event a data_map =
      for_flow id (λ shard_id. execute_action (st shard_id) md wf id event a data_map)

  unfoldable pub cluster_retry_action : Text → Text → Text → ℤ → Exec (Cluster H S Q) (Unit {0})
  cluster_retry_action wf id name a =
      for_flow id (λ shard_id. retry_failed_action (st shard_id) md wf id name a)

  unfoldable pub cluster_execute_resume : Text → Text → Text → Exec (Cluster H S Q) (Unit {0})
  cluster_execute_resume wf id event =
      for_flow id (λ shard_id. execute_resume (st shard_id) md wf id event)

  unfoldable pub cluster_get_flow : Text → Text → Exec (Cluster H S Q) (Result FlowContext)
  cluster_get_flow wf id = for_flow id (λ shard_id. get_flow (st shard_id) md wf id)

  unfoldable pub cluster_mark_paused : Text → Text → Exec (Cluster H S Q) (Unit {0})
  cluster_mark_paused wf id = for_flow id (λ shard_id. mark_paused (st shard_id) md wf id)

  unfoldable pub cluster_execute_resume_after_wait :
      Text → Text → Text → Exec (Cluster H S Q) (Result (Unit {0}))
  cluster_execute_resume_after_wait wf id event =
      for_flow id (λ shard_id. execute_resume_after_wait (st shard_id) md wf id event)

  -- Timeout goes to the storage of the shard.
  unfoldable pub cluster_timeout :
      Text → Text → Text → ℤ → ℤ → Exec (Cluster H S Q) (Result (Unit {0}))
  cluster_timeout wf id name a delay c =
      on_shard (get_partition lib shuffle c.ring id)
        (λ shard_id. stored ((st shard_id).timeout wf id name a delay)) c

  -- Init, with the UUID that it draws: an error of the engine becomes an empty id and no error.
  unfoldable pub cluster_init : Text → Text → Fields → Exec (Cluster H S Q) (Result Text)
  cluster_init flow_id wf input = do
    r ← for_flow flow_id (λ shard_id. init_flow (st shard_id) md wf flow_id input)
    started_with flow_id r

  abbrev pub gathered : List WorkerAction → Result (List WorkerAction) → List WorkerAction
  gathered result (err e) = result
  gathered result (ok actions) = result ++ actions

  -- The loop of Poll over the partitions; an error of a queue skips the partition.
  unfoldable pub poll_from :
      Text → ℤ → List ℤ → List WorkerAction → Exec (Cluster H S Q) (List WorkerAction)
  poll_from name batch_size [] result = pure result
  poll_from name batch_size (part ∷ parts) result =
      if ltb_ℤ (pos (length result)) batch_size
      then (do
        actions ←
            on_shard part
              (λ shard_id. queued ((external shard_id).poll name (room batch_size result)))
        poll_from name batch_size parts (gathered result actions))
      else pure result

  abbrev pub over_partitions :
      Text → ℤ → Outcome (List ℤ) → Exec (Cluster H S Q) (List WorkerAction)
  over_partitions name batch_size panicked = panic
  over_partitions name batch_size (returned parts) = poll_from name batch_size parts []

  -- Poll
  unfoldable pub cluster_poll : Text → ℤ → Exec (Cluster H S Q) (List WorkerAction)
  cluster_poll name batch_size c =
      over_partitions name batch_size (get_partitions lib shuffle c.ring) c
