-- ===== src/Tests/Nodes.antt =====
-- The theorems on the partitions and the shards of a node, and on a worker's poll.
use orchy.Base.{
  ℤ, pos, int_eq, int_beq, Text, text_eq, text_beq, text_beq_iff, lit, true, false, Option, none,
  some, List, [], ◌∷◌, contains, ◌==◌, ◌≡◌, ◌≢◌, refl, arith, returned, if◌then◌else◌,
}
use orchy.Model.{running}
use orchy.Model.Value.{end}
use orchy.Persistence.Queue.{WorkerAction}
use orchy.Executor.Users.{ShardState}
use orchy.Cluster.Ring.{Consistent, Ring, get_partitions, partitions_from}
use orchy.Cluster.Ring.Ownership.{get_partitions-disjoint}
use orchy.Tests.Memory.{Memory}
use orchy.Tests.Flows.{world, context}

-- A hash ring whose state names the owners of the partitions.
abbrev pub owners : Consistent (ℤ → Option Text)
owners = record {
  empty = λ p. none;
  add = λ name h. h;
  remove = λ name h. h;
  find_partition_id = λ key h. pos 0;
  get_partition_owner = λ p h. h p;
}

-- Partition 0 is b's, and every other partition is a's.
abbrev shared : ℤ → Option Text
shared p = if p == pos 0 then some (lit "b") else some (lit "a")

abbrev pub ring_of : Text → Ring (ℤ → Option Text)
ring_of name = record {
  partition_count = pos 3;
  hring = shared;
  nodes = [];
  local_node = record { name = name; addr = [] };
}

abbrev pub unshuffled : List ℤ → List ℤ
unshuffled ids = ids

partitions_of_a :
    get_partitions owners unshuffled (ring_of (lit "a")) ≡ returned (pos 1 ∷ pos 2 ∷ [])
unfolding get_partitions partitions_from int_beq text_beq
partitions_of_a = refl

partitions_of_b : get_partitions owners unshuffled (ring_of (lit "b")) ≡ returned (pos 0 ∷ [])
unfolding get_partitions partitions_from int_beq text_beq
partitions_of_b = refl

other_names : lit "a" ≢ lit "b"
unfolding text_beq
other_names = ground (arith, text_beq_iff (lit "a") (lit "b"))

listed : contains (pos 1 ∷ pos 2 ∷ []) (pos 1) ≡ true
unfolding contains int_beq
listed = refl

get_partitions-disjoint_example : contains (pos 0 ∷ []) (pos 1) ≡ false
get_partitions-disjoint_example =
    get_partitions-disjoint owners unshuffled (λ xs x. refl) (ring_of (lit "a")) (ring_of (lit "b"))
      (pos 1 ∷ pos 2 ∷ []) (pos 0 ∷ []) 1 refl other_names partitions_of_a partitions_of_b listed

abbrev Queue : Type 0
Queue = List WorkerAction

abbrev state : Queue → ShardState Memory Queue
state q = record { world = world (context running); queue = q }

abbrev pub job : WorkerAction
job = record {
  workflow_name = lit "order";
  flow_id = lit "f1";
  action_data = end;
  action_id = pos 1;
  action_name = lit "charge";
}
