-- ===== src/Cluster/Requests/Bounds.antt =====
-- How many actions Poll of cluster/cluster.go hands out.
use orchy.Base.{
  ℕ, ℤ, pos, int_eq, ltb_ℤ, ◌+ℤ◌, ◌≤◌, ◌<◌, ◌-◌, Text, List, [], ◌∷◌, ◌++◌, length, Outcome,
  returned, panicked, ◌≡◌, arith, Bool-cases, Option-cases, inl, inr, ◌+◌,
}
use orchy.Base.Map.{lookup}
use orchy.Model.{Result-cases, ok}
use orchy.Executor.Users.{ExternalQueue, queued}
use orchy.Shard.Storage.{Storage}
use orchy.Shard.Container.{MetadataService}
use orchy.Persistence.Queue.{WorkerAction}
use orchy.Cluster.Ring.{Consistent, get_partitions}
use orchy.Cluster.Shards.{Cluster}
use orchy.Cluster.Requests.{on_shard, room, gathered, poll_from, over_partitions, cluster_poll}

-- A queue returns at most as many actions as are asked for.
abbrev pub IsBounded : {Q : Type 0} → (Text → ExternalQueue Q) → Text → Type 0
IsBounded {Q} external name =
    (shard_id : Text) (n : ℕ) (q : Q) (actions : List WorkerAction)
    → ((external shard_id).poll name (pos n) q).0 ≡ ok actions
    → length actions ≤ n

room_lem :
    {A : Type 0} (n : ℕ) (result : List A)
    → length result < n
    → room (pos n) result ≡ pos (n - length result)
unfolding ◌+ℤ◌
room_lem n [] h = ground arith
room_lem n (x ∷ xs) h = ground arith

length-append : {A : Type 0} (xs ys : List A) → length (xs ++ ys) ≡ length xs + length ys
length-append [] ys = omega arith
length-append (x ∷ xs) ys = omega (arith, length-append xs ys)

module _ {H S Q : Type 0} (lib : Consistent H) (shuffle : List ℤ → List ℤ) (st : Text → Storage S)
    (md : MetadataService) (external : Text → ExternalQueue Q) (name : Text)
    (bounded : IsBounded external name) (n : ℕ) where
  gathered-length :
      (shard_id : Text) (k : ℕ) (result : List WorkerAction) (q : Q)
      → length result + k ≤ n
      → length
          (gathered lib shuffle st md external result ((external shard_id).poll name (pos k) q).0)
        ≤ n
  gathered-length shard_id k result q h =
      elim (Result-cases ((external shard_id).poll name (pos k) q).0) [
        | inl (e, failed) ↦ rw failed (omega arith)
        | inr (actions, ran) ↦
            rw ran (omega (arith, length-append result actions, bounded shard_id k q actions ran))
      ]

  poll_from-length :
      (parts : List ℤ) (result out : List WorkerAction) (c : Cluster H S Q)
      → length result ≤ n
      → (poll_from lib shuffle st md external name (pos n) parts result c).0 ≡ returned out
      → length out ≤ n
  unfolding poll_from on_shard queued
  poll_from-length [] result out c h e = ground (arith, h)
  poll_from-length (part ∷ parts) result out c h e =
      elim (Bool-cases (ltb_ℤ (pos (length result)) (pos n))) [
        | inr full ↦ ground (arith, h)
        | inl more ↦ elim (Option-cases (lookup part c.shards)) [
          | inl missing ↦ absurd (ground (arith))
          | inr (sh, there) ↦
              let fits = room_lem n result (ground arith) in
              let few =
                gathered-length sh.id (n - length result) result c.queue (omega (arith, h)) in
              poll_from-length parts _ out _ few (rw (on_shard, more, there, fits) at e)
        ]
      ]

  polled :
      (parts : Outcome (List ℤ)) (c : Cluster H S Q) (out : List WorkerAction)
      → (over_partitions lib shuffle st md external name (pos n) parts c).0 ≡ returned out
      → length out ≤ n
  polled panicked c out e = cc
  polled (returned parts) c out e = poll_from-length parts [] out c (omega arith) e

  -- If the queues return no more than they are asked for, then Poll hands out at most as many actions
  -- as the batch has, however many partitions it goes through.
  pub cluster_poll-length :
      (c : Cluster H S Q) (out : List WorkerAction)
      → (cluster_poll lib shuffle st md external name (pos n) c).0 ≡ returned out
      → length out ≤ n
  unfolding cluster_poll
  cluster_poll-length c out e = polled (get_partitions lib shuffle c.ring) c out e
