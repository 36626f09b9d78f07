-- ===== src/Persistence/Queue.antt =====
-- redisQueue of persistence/redis/queue.go: the queue that the workers poll. The encoding of an
-- api.Action by protobuf is a parameter.
pub mod Stack
use orchy.Base.{ℤ, Text, List, [], ◌∷◌, map}
use orchy.Model.{Result, ok, err, storage_layer}
use orchy.Model.Value.{Fields}
use orchy.Persistence.Client.{Client, Reply, reply, nil_reply, failure, namespace_key}

-- api.Action of api/v1/flow.proto, as far as the program sets it.
pub record WorkerAction : Type 0 where
  pub workflow_name : Text
  pub flow_id : Text
  pub action_data : Fields
  pub action_id : ℤ
  pub action_name : Text

-- proto.Marshal, and what proto.Unmarshal makes of an empty action, its error left aside.
pub record Proto : Type 0 where
  pub marshal : WorkerAction → Result Text
  pub unmarshal : Text → WorkerAction

module _ {R : Type 0} (client : Client R) (proto : Proto) (namespace shard_id : Text) where
  abbrev to_storage_error : Result (Unit {0}) × R → Result (Unit {0}) × R
  to_storage_error (ok u, s) = (ok u, s)
  to_storage_error (err e, s) = (err storage_layer, s)

  abbrev push_encoded : Text → Result Text → R → Result (Unit {0}) × R
  push_encoded name (err e) s = (err e, s)
  push_encoded name (ok msg) s =
      to_storage_error (client.lpush (namespace_key namespace (name ∷ shard_id ∷ [])) msg s)

  -- Push
  unfoldable pub push : WorkerAction → R → Result (Unit {0}) × R
  push action s = push_encoded action.action_name (proto.marshal action) s

  abbrev popped : Reply (List Text) × R → Result (List WorkerAction) × R
  popped (reply values, s) = (ok (map proto.unmarshal values), s)
  popped (nil_reply, s) = (ok [], s)
  popped (failure e, s) = (err storage_layer, s)

  -- Poll
  unfoldable pub poll : Text → ℤ → R → Result (List WorkerAction) × R
  poll name batch_size s =
      popped (client.lpop_count (namespace_key namespace (name ∷ shard_id ∷ [])) batch_size s)
