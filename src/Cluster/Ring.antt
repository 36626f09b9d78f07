-- ===== src/Cluster/Ring.antt =====
-- cluster/ring.go. The library buraksezer/consistent is a parameter, and so is the shuffle.
pub mod Ownership
use orchy.Base.{
  ℕ, zero, suc, ℤ, pos, pos_part, Text, text_eq, Bool, true, false, if◌then◌else◌, ◌==◌, Option,
  none, some, List, [], ◌∷◌, map, Outcome, returned, panicked,
}
use orchy.Base.Map.{Map, lookup, insert, delete}

-- consistent.Consistent, over the state H of a ring. A partition has no owner while there is no
-- member.
pub record Consistent (H : Type 0) : Type 0 where
  pub empty : H
  pub add : Text → H → H
  pub remove : Text → H → H
  pub find_partition_id : Text → H → ℤ
  pub get_partition_owner : ℤ → H → Option Text

pub record Node : Type 0 where
  pub name : Text
  pub addr : Text

pub record Ring (H : Type 0) : Type 0 where
  pub partition_count : ℤ
  pub hring : H
  pub nodes : Map Text Node
  pub local_node : Node

module _ {H : Type 0} (lib : Consistent H) (shuffle : List ℤ → List ℤ) where
  -- NewRing
  unfoldable pub new_ring : ℤ → Ring H
  new_ring partition_count = record {
    partition_count = partition_count;
    hring = lib.empty;
    nodes = [];
    local_node = record { name = []; addr = [] };
  }

  abbrev pub owned : Option Text → Text → ℤ → Outcome (List ℤ) → Outcome (List ℤ)
  owned none name i rest = panicked
  owned (some owner) name i panicked = panicked
  owned (some owner) name i (returned ids) = returned (if owner == name then i ∷ ids else ids)

  -- The loop of GetPartitions, with the rounds that are left. A missing owner is a nil interface.
  unfoldable pub partitions_from : Ring H → ℕ → ℕ → Outcome (List ℤ)
  partitions_from r zero i = returned []
  partitions_from r (suc left) i =
      owned (lib.get_partition_owner (pos i) r.hring) r.local_node.name (pos i)
        (partitions_from r left (suc i))

  abbrev shuffled : Outcome (List ℤ) → Outcome (List ℤ)
  shuffled (returned ids) = returned (shuffle ids)
  shuffled panicked = panicked

  -- GetPartitions
  unfoldable pub get_partitions : Ring H → Outcome (List ℤ)
  get_partitions r = shuffled (partitions_from r (pos_part r.partition_count) 0)

  -- GetPartition
  unfoldable pub get_partition : Ring H → Text → ℤ
  get_partition r key = lib.find_partition_id key r.hring

  -- Join, up to the call of the rebalancer: whether the node is new, and the ring.
  unfoldable pub join : Text → Text → Bool → Ring H → Bool × Ring H
  join name addr is_local r = elim (lookup name r.nodes) [
    | some old ↦ (false, r)
    | none ↦
        let node : Node = record { name = name; addr = addr } in
        (
          true,
          record r {
            local_node = if is_local then node else r.local_node;
            nodes = insert name node r.nodes;
            hring = lib.add name r.hring;
          },
        )
  ]

  -- Leave, up to the call of the rebalancer.
  unfoldable pub leave : Text → Ring H → Ring H
  leave name r = record r { nodes = delete name r.nodes; hring = lib.remove name r.hring }

-- GetServers
unfoldable pub get_servers : {H : Type 0} → Ring H → List Node
get_servers r = map (λ (n : Text × Node). n.1) r.nodes
