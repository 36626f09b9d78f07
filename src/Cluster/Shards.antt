-- ===== src/Cluster/Shards.antt =====
-- cluster/cluster.go: the shards of a node, their executors, and the rebalancing.
pub mod Running
use orchy.Base.{
  ℕ, zero, suc, ℤ, pos, int_eq, pos_part, Text, lit, Bool, true, false, if◌then◌else◌, Option, none,
  some, List, [], ◌∷◌, ◌++◌, contains, Outcome, returned, panicked,
}
use orchy.Base.Map.{Map}
use orchy.Base.Strconv.{itoa}
use orchy.Shard.Container.{ActionRecord}
use orchy.Shard.Machine.{FlowStateMachine}
use orchy.Executor.Worker.Steps.{Call, start_call, stop_call}
use orchy.Cluster.Ring.{Consistent, Ring, new_ring, get_partitions, join, leave}

-- shard.Shard: its id, the machines of its container, and for each of its executors, by their
-- names, the calls of Start and Stop that were made to it, the first one first. What such calls
-- come to, and when one returns, is in Executor/Worker/Steps.
pub record Shard : Type 0 where
  pub id : Text
  pub machines : Map Text FlowStateMachine
  pub executors : Map Text (List Call)

-- cluster.Cluster, with what its shards share: the state of the server on which their storages and
-- queues stand, which tell the shards apart by their ids, and the data collector.
pub record Cluster (H S Q : Type 0) : Type 0 where
  pub ring : Ring H
  pub shards : Map ℤ Shard
  pub storage : S
  pub queue : Q
  -- The calls to the data collector, the latest first.
  pub records : List ActionRecord

-- A call to every executor of a shard.
unfoldable pub each_executor : Call → Map Text (List Call) → Map Text (List Call)
each_executor call [] = []
each_executor call ((name, calls) ∷ rest) = (name, calls ++ (call ∷ [])) ∷ each_executor call rest

-- The executors that NewCluster registers.
abbrev pub registered : Map Text (List Call)
registered =
    (lit "user-action", [])
    ∷ (lit "system-action", [])
    ∷ (lit "delay", [])
    ∷ (lit "retry", [])
    ∷ (lit "timeout", [])
    ∷ []

-- The loop of NewCluster, with the rounds that are left: the shard `i` is named by its number.
unfoldable pub new_shards : ℕ → ℕ → Map ℤ Shard
new_shards zero i = []
new_shards (suc left) i =
    let id = itoa (pos i) in
    (pos i, record { id = id; machines = []; executors = registered }) ∷ new_shards left (suc i)

-- Start and Stop of shard/shard.go.
unfoldable pub start_shard : Shard → Shard
start_shard s = record s { executors = each_executor start_call s.executors }

unfoldable pub stop_shard : Shard → Shard
stop_shard s = record s { executors = each_executor stop_call s.executors }

-- Rebalance: the shards of the partitions are started, and the others stopped.
unfoldable pub rebalance : List ℤ → Map ℤ Shard → Map ℤ Shard
rebalance partitions [] = []
rebalance partitions ((id, s) ∷ rest) =
    (id, if contains partitions id then start_shard s else stop_shard s) ∷ rebalance partitions rest

-- Stop of the cluster.
unfoldable pub stop_all : Map ℤ Shard → Map ℤ Shard
stop_all [] = []
stop_all ((id, s) ∷ rest) = (id, stop_shard s) ∷ stop_all rest

module _ {H S Q : Type 0} (lib : Consistent H) (shuffle : List ℤ → List ℤ) where
  abbrev pub rebalanced : Cluster H S Q → Ring H → Outcome (List ℤ) → Outcome (Cluster H S Q)
  rebalanced c r panicked = panicked
  rebalanced c r (returned ids) = returned (record c { ring = r; shards = rebalance ids c.shards })

  -- Ring.Join with the rebalancer of the cluster.
  unfoldable pub on_join : Text → Text → Bool → Cluster H S Q → Outcome (Cluster H S Q)
  on_join name addr is_local c =
      let (is_new, r) = join lib shuffle name addr is_local c.ring in
      if is_new then rebalanced c r (get_partitions lib shuffle r) else returned c

  -- Ring.Leave with the rebalancer of the cluster.
  unfoldable pub on_leave : Text → Cluster H S Q → Outcome (Cluster H S Q)
  on_leave name c =
      let r = leave lib shuffle name c.ring in rebalanced c r (get_partitions lib shuffle r)

-- NewCluster, up to the membership: a ring with no member, and the shards, of which none runs.
unfoldable pub new_cluster :
    {H S Q : Type 0} → Consistent H → (List ℤ → List ℤ) → S → Q → ℤ → Cluster H S Q
new_cluster lib shuffle storage queue partition_count = record {
  ring = new_ring lib shuffle partition_count;
  shards = new_shards (pos_part partition_count) 0;
  storage = storage;
  queue = queue;
  records = [];
}
