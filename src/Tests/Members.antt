-- ===== src/Tests/Members.antt =====
-- The theorems on the membership.
use orchy.Base.{
  ℕ, pos, int_eq, int_beq, text_beq, Text, text_eq, text_beq_iff, lit, Bool, true, not, ◌&&◌,
  if◌then◌else◌, ◌==◌, Option, none, some, List, [], ◌∷◌, contains, returned, ◌≡◌, ◌≢◌, refl, arith,
}
use orchy.Base.Map.{lookup, insert}
use orchy.Model.{running}
use orchy.Cluster.Ring.{Consistent, new_ring, join, partitions_from, get_partitions}
use orchy.Cluster.Shards.{
  Cluster, Shard, new_cluster, new_shards, registered, each_executor, start_shard, rebalance,
  on_join,
}
use orchy.Cluster.Membership.{
  Member, Event, member_join, member_failed, event_handler, on_event, join_each, handle_join,
  is_local, rpc_addr,
}
use orchy.Cluster.Membership.Changes.{changes}
use orchy.Cluster.Membership.Table.{IsConsistent, Agree, entry, is_some, event_handler-entry}
use orchy.Cluster.Membership.Balance.{is_ours, IsBalanced}
use orchy.Cluster.Membership.Runs.{event_handler-runs}
use orchy.Executor.Worker.Steps.{new_state, start_call, begin_start, end_start}
use orchy.Executor.Worker.Patient.{PatientRun, patient_rest, patient_step}
use orchy.Executor.Worker.Races.{running_state}
use orchy.Base.Strconv.{itoa}
use orchy.Cluster.Membership.Progress.{event_handler_balances}
use orchy.Tests.Memory.{Memory}
use orchy.Tests.Flows.{world, context}
use orchy.Tests.Nodes.{unshuffled}

abbrev without : Text → List Text → List Text
without m [] = []
without m (n ∷ h) = let rest = without m h in if m == n then rest else n ∷ rest

abbrev first_of : List Text → Option Text
first_of [] = none
first_of (n ∷ h) = some n

-- A hash ring that is the list of its members, of which the latest owns every partition.
abbrev pub members : Consistent (List Text)
members = record {
  empty = [];
  add = λ name h. name ∷ h;
  remove = without;
  find_partition_id = λ key h. pos 0;
  get_partition_owner = λ p h. first_of h;
}

abbrev member : Text → List Text → Bool
member n h = contains h n

member-without :
    (m n : Text) (h : List Text) → member n (without m h) ≡ (not (m == n) && member n h)
unfolding contains
member-without m n [] = ground arith
member-without m n (k ∷ h) =
    ground (arith, text_beq_iff m n, text_beq_iff m k, text_beq_iff k n, member-without m n h)

owner_is_member : (n : Text) (h : List Text) → first_of h ≡ some n → member n h ≡ true
unfolding contains
owner_is_member n [] e = cc
owner_is_member n (k ∷ h) e = ground (arith, text_beq_iff k n)

has_first : (n : Text) (h : List Text) → member n h ≡ true → first_of h ≢ none
unfolding contains
has_first n [] e = cc
has_first n (k ∷ h) e = λ f. cc

consistent : IsConsistent members 2 member
unfolding contains
consistent = record {
  no_member = λ n. refl;
  member_add = λ m n h. refl;
  member_remove = member-without;
  has_owner = λ p n h low e. has_first n h e;
  owner_member = λ p n h e. owner_is_member n h e;
}

abbrev pub named : Text → Member
named name = record { name = name; tags = (lit "rpc_addr", lit "host:8099") ∷ [] }

-- The node a joins, then b, and b fails.
abbrev events : List Event
events = member_join (named (lit "b") ∷ []) ∷ member_failed (named (lit "b") ∷ []) ∷ []

abbrev pub one_flow : Memory
one_flow = (world (context running)).storage

abbrev pub new : Cluster (List Text) Memory Unit
new = new_cluster members unshuffled one_flow tt (pos 2)

event_handler_balances_example :
    (c : Cluster (List Text) Memory Unit) × (event_handler members unshuffled
        (lit "a")
        (member_join (named (lit "a") ∷ []) ∷ events)
        new
      ≡ returned c)
    × IsBalanced members unshuffled c
event_handler_balances_example =
    event_handler_balances members unshuffled 2 member consistent (λ xs x. refl) (named (lit "a"))
      [] events one_flow tt

abbrev joined :
    (c : Cluster (List Text) Memory Unit) × (event_handler members unshuffled
        (lit "a")
        (member_join (named (lit "a") ∷ []) ∷ events)
        new
      ≡ returned c)
    × IsBalanced members unshuffled c
joined =
    event_handler_balances members unshuffled 2 member consistent (λ xs x. refl) (named (lit "a"))
      [] events one_flow tt

no_nodes : Agree members unshuffled (lit "a") 2 member consistent new.ring
unfolding new_cluster contains lookup new_ring
no_nodes n = refl

event_handler-entry_example :
    (lookup (lit "b") joined.0.ring.nodes
      ≡ entry
          (lit "b")
          (changes (lit "a") (member_join (named (lit "a") ∷ []) ∷ events))
          (lookup (lit "b") new.ring.nodes))
    × (member (lit "b") joined.0.ring.hring
        ≡ is_some (
            entry
              (lit "b")
              (changes (lit "a") (member_join (named (lit "a") ∷ []) ∷ events))
              (lookup (lit "b") new.ring.nodes)))
event_handler-entry_example =
    event_handler-entry members unshuffled (lit "a") 2 member consistent
      (member_join (named (lit "a") ∷ []) ∷ events) new joined.0 (lit "b") no_nodes joined.1

abbrev called : Text → Shard
called name = record { id = name; machines = []; executors = each_executor start_call registered }

-- The node a joins alone: it is given both partitions.
abbrev alone : Cluster (List Text) Memory Unit
alone = record {
  ring = record {
    partition_count = pos 2;
    hring = lit "a" ∷ [];
    nodes = (lit "a", record { name = lit "a"; addr = lit "host:8099" }) ∷ [];
    local_node = record { name = lit "a"; addr = lit "host:8099" };
  };
  shards = (pos 0, called (lit "0")) ∷ (pos 1, called (lit "1")) ∷ [];
  storage = one_flow;
  queue = tt;
  records = [];
}

joins :
    event_handler members unshuffled (lit "a") (member_join (named (lit "a") ∷ []) ∷ []) new
    ≡ returned alone
unfolding event_handler on_event join_each handle_join on_join join get_partitions partitions_from
    rebalance start_shard each_executor new_cluster new_ring new_shards lookup insert text_beq
    int_beq is_local rpc_addr itoa contains
joins = refl

-- One executor, after its Start.
running_once : PatientRun new_state (start_call ∷ []) running_state
running_once =
    patient_step (patient_step patient_rest refl (begin_start refl refl)) tt (end_start refl)

given : lookup (pos 0) alone.shards ≡ some (called (lit "0"))
unfolding lookup int_beq
given = refl

delays : lookup (lit "delay") (called (lit "0")).executors ≡ some (start_call ∷ [])
unfolding lookup text_beq each_executor
delays = refl

event_handler-runs_example :
    (true ≡ is_ours members unshuffled alone.ring 0)
    × (◌≡◌ {A = ℕ} 1 (if is_ours members unshuffled alone.ring 0 then 1 else 0))
event_handler-runs_example =
    event_handler-runs members unshuffled 2 member consistent (λ xs x. refl) (lit "a")
      (member_join (named (lit "a") ∷ []) ∷ []) one_flow tt alone 0 (called (lit "0")) (lit "delay")
      (start_call ∷ []) running_state joins given delays running_once (refl, refl)
