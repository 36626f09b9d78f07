-- ===== src/Service/Polls.antt =====
-- What a worker's poll returns (service/action_execution_service.go, cluster/cluster.go).
use orchy.Base.{Text, ℤ, List, ◌∷◌, returned, panicked, ◌≡◌}
use orchy.Model.{Error, err}
use orchy.Shard.Storage.{Storage}
use orchy.Shard.Container.{MetadataService}
use orchy.Executor.Users.{ExternalQueue}
use orchy.Persistence.Queue.{WorkerAction}
use orchy.Cluster.Ring.{Consistent}
use orchy.Cluster.Shards.{Cluster}
use orchy.Cluster.Requests.{cluster_poll}
use orchy.Service.{poll, watch_each}

module _ {H S Q : Type 0} (lib : Consistent H) (shuffle : List ℤ → List ℤ) (st : Text → Storage S)
    (md : MetadataService) (external : Text → ExternalQueue Q) where
  -- If the first action that the queues hand out has no definition, Poll panics, and the actions
  -- are already gone from the queues: the cluster is left as the poll of the queues left it.
  pub poll-unregistered :
      (name : Text) (batch_size : ℤ) (c c' : Cluster H S Q) (a : WorkerAction)
      (rest : List WorkerAction) (e : Error)
      → cluster_poll lib shuffle st md external name batch_size c ≡ (returned (a ∷ rest), c')
      → md.get_action_definition a.action_name ≡ err e
      → poll lib shuffle st md external name batch_size c ≡ (panicked, c')
  unfolding poll watch_each
  poll-unregistered name batch_size c c' a rest e polled unknown = rw (polled, unknown)
