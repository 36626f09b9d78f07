-- ===== src/Cluster/Membership/Balance.antt =====
-- What the executors are called to do by the events of cluster/membership.go (Rebalance of cluster/cluster.go).
use orchy.Base.{
  ℕ, zero, suc, ℤ, pos, pos_part, int_eq, Text, Bool, false, ◌&&◌, Option, none, some, List, [],
  ◌∷◌, All, contains, returned, ◌≡◌, refl, arith, ltb, inl, inr,
}
use orchy.Base.Map.{Map}
use orchy.Executor.Worker.Patient.{wanted}
use orchy.Cluster.Ring.{Consistent, Ring, new_ring, get_partitions}
use orchy.Cluster.Ring.Ownership.{owns, contains-get_partitions}
use orchy.Cluster.Shards.{Cluster, Shard, rebalance, new_shards, new_cluster}
use orchy.Cluster.Shards.Running.{AllExecutors, AskExactly, rebalance-AskExactly}
use orchy.Cluster.Membership.{Event, event_handler}
use orchy.Cluster.Membership.Changes.{
  Change, apply_change, event_handler-returned, changes, apply_all-keeps,
}
use orchy.Cluster.Membership.Table.{IsConsistent, apply_change-cases}

module _ {H : Type 0} (lib : Consistent H) (shuffle : List ℤ → List ℤ) where
  -- Is the partition the local node's?
  abbrev pub is_ours : Ring H → ℕ → Bool
  is_ours r k =
      ltb k (pos_part r.partition_count)
      && owns lib shuffle (lib.get_partition_owner (pos k) r.hring) r.local_node.name

  module _ (partitions : ℕ) (member : Text → H → Bool)
      (consistent : IsConsistent lib partitions member) where
    owns-no_member :
        (owner : Option Text) (name : Text)
        → ((n : Text) → owner ≡ some n → ⊥)
        → owns lib shuffle owner name ≡ false
    owns-no_member none name h = refl
    owns-no_member (some n) name h = absurd (h n refl)

    is_ours-empty : (r : Ring H) (k : ℕ) → r.hring ≡ lib.empty → is_ours r k ≡ false
    is_ours-empty r k e = rw e (
        ground (
          arith,
          owns-no_member (lib.get_partition_owner (pos k) lib.empty) r.local_node.name (λ n h.
              ground (arith, consistent.owner_member k n lib.empty h, consistent.no_member n)),
        ))

module _ {H : Type 0} (lib : Consistent H) (shuffle : List ℤ → List ℤ) where
  -- The last call to the executors of a shard is Start if its partition is the local node's; else it
  -- is Stop, or there was none.
  abbrev pub AskedIfOurs : Ring H → ℤ × Shard → Type 0
  AskedIfOurs r e =
      (k : ℕ) × (e.0 ≡ pos k)
      × AllExecutors (λ calls. wanted calls false ≡ is_ours lib shuffle r k) e.1.executors

  abbrev pub IsBalanced : {S Q : Type 0} → Cluster H S Q → Type 0
  IsBalanced c = All (AskedIfOurs c.ring) c.shards

  abbrev IsNumbered : ℤ × Shard → Type 0
  IsNumbered e = (k : ℕ) × (e.0 ≡ pos k)

  rebalance-IsNumbered :
      (ids : List ℤ) (shards : Map ℤ Shard)
      → All IsNumbered shards
      → All IsNumbered (rebalance ids shards)
  unfolding rebalance
  rebalance-IsNumbered ids [] h = tt
  rebalance-IsNumbered ids ((id, s) ∷ rest) h = (h.0, rebalance-IsNumbered ids rest h.1)

  balanced-IsNumbered :
      (r : Ring H) (shards : Map ℤ Shard) → All (AskedIfOurs r) shards → All IsNumbered shards
  balanced-IsNumbered r [] h = tt
  balanced-IsNumbered r (e ∷ rest) h = ((h.0.0, h.0.1), balanced-IsNumbered r rest h.1)

  module _ (kept : (xs : List ℤ) (x : ℤ) → contains (shuffle xs) x ≡ contains xs x) where
    run_ours :
        (r : Ring H) (ids : List ℤ) (shards : Map ℤ Shard)
        → get_partitions lib shuffle r ≡ returned ids
        → All IsNumbered shards
        → AskExactly ids shards
        → All (AskedIfOurs r) shards
    run_ours r ids [] h numbered runs = tt
    run_ours r ids ((id, s) ∷ rest) h ((k, e), numbered) (runs, later) = (
      (k, e, rw (e, contains-get_partitions lib shuffle kept r ids k h) at runs),
      run_ours r ids rest h numbered later,
    )

    change-IsBalanced :
        {S Q : Type 0} (local_name : Text) (ch : Change) (c c' : Cluster H S Q)
        → apply_change lib shuffle local_name ch c ≡ returned c'
        → IsBalanced c
        → IsBalanced c'
    change-IsBalanced local_name ch c c' h balanced =
        elim (apply_change-cases lib shuffle local_name ch c c' h) [
          | inl (_, e) ↦ rw e balanced
          | inr (_, (ids, listed, e)) ↦ rw e (
              run_ours _ ids (rebalance ids c.shards) listed
                (rebalance-IsNumbered ids c.shards (balanced-IsNumbered c.ring c.shards balanced))
                (rebalance-AskExactly ids c.shards))
        ]

    pub event_handler-IsBalanced :
        {S Q : Type 0} (local_name : Text) (es : List Event) (c c' : Cluster H S Q)
        → event_handler lib shuffle local_name es c ≡ returned c'
        → IsBalanced c
        → IsBalanced c'
    event_handler-IsBalanced local_name es c c' h =
        apply_all-keeps lib shuffle local_name IsBalanced (change-IsBalanced local_name)
          (changes local_name es) c c' (event_handler-returned lib shuffle local_name es c c' h)

  module _ (partitions : ℕ) (member : Text → H → Bool)
      (consistent : IsConsistent lib partitions member) where
    new_shards-AskedIfOurs :
        (r : Ring H) (left i : ℕ) → r.hring ≡ lib.empty → All (AskedIfOurs r) (new_shards left i)
    unfolding new_shards wanted
    new_shards-AskedIfOurs r zero i h = tt
    new_shards-AskedIfOurs r (suc left) i h = (
      (
        i,
        refl,
        rw (is_ours-empty lib shuffle partitions member consistent r i h)
            (refl, (refl, (refl, (refl, (refl, tt))))),
      ),
      new_shards-AskedIfOurs r left (suc i) h,
    )

    pub new_cluster-IsBalanced :
        {S Q : Type 0} (storage : S) (queue : Q) (partition_count : ℤ)
        → IsBalanced (new_cluster lib shuffle storage queue partition_count)
    unfolding new_cluster new_ring
    new_cluster-IsBalanced storage queue partition_count =
        new_shards-AskedIfOurs (new_ring lib shuffle partition_count) (pos_part partition_count) 0
          refl
