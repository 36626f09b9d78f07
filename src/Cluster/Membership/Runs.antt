-- ===== src/Cluster/Membership/Runs.antt =====
-- Which executors of a node run after the events of cluster/membership.go, if their goroutines keep
-- up with the calls (util/worker.go).
use orchy.Base.{
  ℕ, ℤ, pos, int_eq, int_beq_iff, Text, text_eq, Bool, false, ◌==◌, if◌then◌else◌, some, List, [],
  ◌∷◌, All, contains, returned, ◌≡◌, arith, Bool-cases, inl, inr,
}
use orchy.Base.Map.{Map, lookup}
use orchy.Executor.Worker.Steps.{State, Call, new_state, IsSettled}
use orchy.Executor.Worker.Patient.{PatientRun, wanted, patient-run}
use orchy.Cluster.Ring.{Consistent}
use orchy.Cluster.Shards.{Cluster, Shard, new_cluster}
use orchy.Cluster.Shards.Running.{AllExecutors}
use orchy.Cluster.Membership.{Event, event_handler}
use orchy.Cluster.Membership.Table.{IsConsistent}
use orchy.Cluster.Membership.Balance.{
  is_ours, AskedIfOurs, new_cluster-IsBalanced, event_handler-IsBalanced,
}

executor_asked :
    (b : Bool) (name : Text) (calls : List Call) (ex : Map Text (List Call))
    → AllExecutors (λ calls. wanted calls false ≡ b) ex
    → lookup name ex ≡ some calls
    → wanted calls false ≡ b
unfolding lookup
executor_asked b name calls [] h there = cc
executor_asked b name calls ((n, cs) ∷ ex) (h, hs) there = elim (Bool-cases (n == name)) [
  | inl e ↦ ground (arith, h)
  | inr e ↦ executor_asked b name calls ex hs (ground arith)
]

pos-injective : (k j : ℕ) → pos k ≡ pos j → k ≡ j
pos-injective k j h = cc

module _ {H S Q : Type 0} (lib : Consistent H) (shuffle : List ℤ → List ℤ) where
  shard_asked :
      (c : Cluster H S Q) (k : ℕ) (sh : Shard) (shards : Map ℤ Shard)
      → All (AskedIfOurs lib shuffle c.ring) shards
      → lookup (pos k) shards ≡ some sh
      → AllExecutors (λ calls. wanted calls false ≡ is_ours lib shuffle c.ring k) sh.executors
  unfolding lookup
  shard_asked c k sh [] h there = cc
  shard_asked c k sh ((id, s) ∷ rest) ((j, e, asked), hs) there = elim (Bool-cases (id == pos k)) [
    | inl same ↦
        let at : j ≡ k = pos-injective j k (ground (arith, e, int_beq_iff id (pos k))) in
        let is : s ≡ sh = ground arith in rw (← at, ← is) asked
    | inr other ↦ shard_asked c k sh rest hs (ground arith)
  ]

  -- The events are handled to the end by a node that was new; and an executor of a shard was called
  -- patiently, each call after the goroutine that the call before it stopped had reset the flag, and
  -- is between two calls: then it runs, in one goroutine, if the hash ring gives the shard's
  -- partition to the node, and else it has no goroutine.
  pub event_handler-runs :
      (partitions : ℕ) (member : Text → H → Bool) (consistent : IsConsistent lib partitions member)
      (kept : (xs : List ℤ) (x : ℤ) → contains (shuffle xs) x ≡ contains xs x) (local_name : Text)
      (es : List Event) (storage : S) (queue : Q) (c : Cluster H S Q) (k : ℕ) (sh : Shard)
      (name : Text) (calls : List Call) (s : State)
      → event_handler lib shuffle local_name es
          (new_cluster lib shuffle storage queue (pos partitions))
        ≡ returned c
      → lookup (pos k) c.shards ≡ some sh
      → lookup name sh.executors ≡ some calls
      → PatientRun new_state calls s
      → IsSettled s
      → (s.running ≡ is_ours lib shuffle c.ring k)
        × (s.looping ≡ (if is_ours lib shuffle c.ring k then 1 else 0))
  event_handler-runs partitions member consistent kept local_name es storage queue c k sh name calls
        s handled there listed run settled =
      let balanced =
        event_handler-IsBalanced lib shuffle kept local_name es
          (new_cluster lib shuffle storage queue (pos partitions)) c handled
          (new_cluster-IsBalanced lib shuffle partitions member consistent storage queue
            (pos partitions)) in
      let asked =
        executor_asked _ name calls sh.executors (shard_asked c k sh c.shards balanced there)
          listed in
      rw asked at (patient-run run settled)
