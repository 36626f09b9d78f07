-- ===== src/Rpc.antt =====
-- rpc/api.go: the service of the workers, over the state of a node. A Go function that returns a
-- response and an error returns both here, since some return neither.
pub mod Pushes
pub mod Clients
use orchy.Base.{
  ℤ, Text, lit, Bool, true, false, Option, none, some, List, Exec, pure, ◌>>=◌, text_eq, ◌==◌,
  if◌then◌else◌,
}
use orchy.Model.{
  Error, Result, ok, err, storage_layer, ActionDefinition, RetryPolicy, fixed, backoff,
  other_policy,
}
use orchy.Shard.Storage.{Storage}
use orchy.Executor.Users.{ExternalQueue}
use orchy.Persistence.Queue.{WorkerAction}
use orchy.Metadata.Store.{MetadataStore, service_of}
use orchy.Cluster.Ring.{Consistent, get_servers}
use orchy.Cluster.Ring
use orchy.Service.{ActionResult, poll, handle_action_result}
use orchy.Rest.Routes.{ServerState, on_cluster}

-- A response, which may be nil, and an error, which may be nil.
pub record Reply (A : Type 0) : Type 0 where
  pub response : Option A
  pub error : Option Error

-- api.ActionDefinition of api/v1/flow.proto; its numbers have 32 bits.
pub record DefinitionRequest : Type 0 where
  pub name : Text
  pub retry_count : ℤ
  pub retry_after_seconds : ℤ
  pub retry_policy : Text
  pub timeout_seconds : ℤ

-- api.ActionPollRequest
pub record PollRequest : Type 0 where
  pub action_type : Text
  pub batch_size : ℤ

-- model.RetryPolicy(s)
unfoldable pub to_retry_policy : Text → RetryPolicy
to_retry_policy s =
    if s == lit "FIXED" then fixed else if s == lit "BACKOFF" then backoff else other_policy s

unfoldable pub to_definition : DefinitionRequest → ActionDefinition
unfolding to_retry_policy
to_definition req = record {
  name = req.name;
  retry_count = req.retry_count;
  retry_after_seconds = req.retry_after_seconds;
  retry_policy = to_retry_policy req.retry_policy;
  timeout_seconds = req.timeout_seconds;
}

-- A response with the status of a call, and the call's error.
abbrev pub with_status : Result (Unit {0}) → Reply Bool
with_status (err e) = record { response = some false; error = some e }
with_status (ok u) = record { response = some true; error = none }

-- The error of a poll: of the storage, it is passed on; any other is dropped with the response.
unfoldable pub poll_reply : Result (List WorkerAction) → Reply (List WorkerAction)
poll_reply (ok actions) = record { response = some actions; error = none }
poll_reply (err storage_layer) = record { response = none; error = some storage_layer }
poll_reply (err e) = record { response = none; error = none }

module _ {H S Q R : Type 0} (hash_ring : Consistent H) (shuffle : List ℤ → List ℤ)
    (st : Text → Storage S) (store : MetadataStore R) (external : Text → ExternalQueue Q) where
  -- SaveActionDefinition
  unfoldable pub rpc_save_action_definition :
      DefinitionRequest → Exec (ServerState H S Q R) (Reply Bool)
  unfolding to_definition
  rpc_save_action_definition req n =
      let (r, s) = store.save_action_definition (to_definition req) n.metadata in
      pure (with_status r) (record n { metadata = s })

  -- Poll: the service of the workers returns no error.
  unfoldable pub rpc_poll : PollRequest → Exec (ServerState H S Q R) (Reply (List WorkerAction))
  unfolding poll_reply
  rpc_poll req n =
      (on_cluster (
            poll hash_ring shuffle st (service_of store n.metadata) external req.action_type
              req.batch_size)
          >>= λ actions. pure (poll_reply (ok actions)))
        n

  -- Push
  unfoldable pub rpc_push : ActionResult → Exec (ServerState H S Q R) (Reply Bool)
  rpc_push r n =
      (on_cluster
            (handle_action_result hash_ring shuffle st (service_of store n.metadata) external r)
          >>= λ pushed. pure (with_status pushed))
        n

  -- GetServers
  unfoldable pub rpc_get_servers : Exec (ServerState H S Q R) (Reply (List Ring.Node))
  rpc_get_servers n = pure (record { response = some (get_servers n.cluster.ring); error = none }) n
