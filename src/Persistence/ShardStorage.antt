-- ===== src/Persistence/ShardStorage.antt =====
-- redisShardStorage of persistence/redis/shard.go: the interface Storage of one shard.
pub mod Hashes
pub mod Reads
pub mod Isolation
use orchy.Base.{
  ℤ, pos, ◌+ℤ◌, negsuc, int64, Text, lit, Bool, if◌then◌else◌, Option, some, List, [], ◌∷◌, ◌++◌,
  map, Outcome, returned, panicked, Exec,
}
use orchy.Model.{
  Result, ok, err, storage_layer, FlowContext, ActionExecutionRequest, ActionType, system,
}
use orchy.Shard.Storage.{Storage}
use orchy.Persistence.Client.{
  Client, Reply, reply, nil_reply, failure, Member, Command, h_set, z_add, z_rem_range_by_score,
  EncoderDecoder, namespace_key, milliseconds,
}
use orchy.Persistence.Message.{message, message_of, parse_messages}

abbrev to_storage_error : {A : Type 0} → Result A → Result A
to_storage_error (ok a) = ok a
to_storage_error (err e) = err storage_layer

abbrev is_system : Option ActionType → Bool
is_system (some system) = Bool.true
is_system _ = Bool.false

module _ {R : Type 0} (client : Client R) (encoder : EncoderDecoder FlowContext)
    (namespace shard_id : Text) where
  abbrev pub flow_key : Text → Text
  flow_key wf = namespace_key namespace (lit "FLOW" ∷ wf ∷ shard_id ∷ [])

  abbrev pub queue_key : Text → Text
  queue_key name = namespace_key namespace (name ∷ shard_id ∷ [])

  abbrev then_error : Result (Unit {0}) × R → Result (Unit {0}) × R
  then_error (r, s) = (to_storage_error r, s)

  abbrev set_encoded : Text → Text → Result Text → R → Result (Unit {0}) × R
  set_encoded wf id (err e) s = (err e, s)
  set_encoded wf id (ok text) s = then_error (client.hset (flow_key wf) id text s)

  -- SaveFlowContext
  unfoldable pub save_flow_context : Text → Text → FlowContext → R → Result (Unit {0}) × R
  save_flow_context wf id ctx s = set_encoded wf id (encoder.encode ctx) s

  abbrev decoded : Reply Text × R → Result FlowContext × R
  decoded (reply text, s) = (encoder.decode text, s)
  decoded (nil_reply, s) = (err storage_layer, s)
  decoded (failure e, s) = (err storage_layer, s)

  -- GetFlowContext
  unfoldable pub get_flow_context : Text → Text → R → Result FlowContext × R
  get_flow_context wf id s = decoded (client.hget (flow_key wf) id s)

  -- DeleteFlowContext
  unfoldable pub delete_flow_context : Text → Text → R → Result (Unit {0}) × R
  delete_flow_context wf id s = then_error (client.hdel (flow_key wf) id s)

  -- The loop of SaveFlowContextAndDispatchAction, for the requests of one queue.
  unfoldable pub members_of :
      Text → Text → ℤ → (ActionExecutionRequest → Bool) → List ActionExecutionRequest → List Member
  members_of wf id now chosen [] = []
  members_of wf id now chosen (r ∷ rs) =
      let rest = members_of wf id now chosen rs in
      let m : Member = record { score = now; member = message wf id r.action_name r.action_id } in
      if chosen r then m ∷ rest else rest

  abbrev pub add_unless_empty : Text → List Member → List Command
  add_unless_empty name [] = []
  add_unless_empty name (m ∷ ms) = z_add (queue_key name) (m ∷ ms) ∷ []

  -- `data, _ := Encode(...)`: on an error the text is empty.
  abbrev pub text_of : Result Text → Text
  text_of (ok text) = text
  text_of (err e) = []

  -- SaveFlowContextAndDispatchAction
  unfoldable pub save_flow_context_and_dispatch_action :
      Text → Text → FlowContext → List ActionExecutionRequest → R → Result (Unit {0}) × R
  save_flow_context_and_dispatch_action wf id ctx actions s =
      let now = milliseconds (client.now s) in
      let users =
        members_of wf id now (λ r. if is_system r.action_type then Bool.false else Bool.true)
          actions in
      let systems = members_of wf id now (λ r. is_system r.action_type) actions in
      let commands =
        h_set (flow_key wf) id (text_of (encoder.encode ctx))
        ∷ (add_unless_empty (lit "user") users ++ add_unless_empty (lit "system") systems) in
      then_error (client.tx_pipelined commands s)

  abbrev parsed :
      Outcome (List ActionExecutionRequest) → Outcome (Result (List ActionExecutionRequest))
  parsed (returned rs) = returned (ok rs)
  parsed panicked = panicked

  abbrev polled : Reply (List Text) × R → Outcome (Result (List ActionExecutionRequest)) × R
  polled (reply values, s) = (parsed (parse_messages values), s)
  polled (nil_reply, s) = (returned (ok []), s)
  polled (failure e, s) = (returned (err storage_layer), s)

  -- PollAction: the first `batch_size` members, which stay in the set.
  unfoldable pub poll_action : Text → ℤ → Exec R (Result (List ActionExecutionRequest))
  poll_action action_type batch_size s =
      polled (client.zrange (queue_key action_type) (pos 0) (int64 (batch_size +ℤ negsuc 0)) s)

  -- Ack
  unfoldable pub ack : Text → List ActionExecutionRequest → R → Result (Unit {0}) × R
  ack action_type actions s =
      then_error (client.zrem (queue_key action_type) (map message_of actions) s)

  -- addToSortedSet, for one message.
  unfoldable pub add_to_sorted_set : Text → Text → ℤ → R → Result (Unit {0}) × R
  add_to_sorted_set key text delay s =
      let due = milliseconds (client.now s +ℤ delay) in
      then_error (client.zadd key (record { score = due; member = text } ∷ []) s)

  -- What Retry, Delay and Timeout have in common.
  unfoldable pub put_off : Text → Text → Text → Text → ℤ → ℤ → R → Result (Unit {0}) × R
  put_off queue wf id name a delay s =
      add_to_sorted_set (queue_key queue) (message wf id name a) delay s

  abbrev expired :
      Result (Unit {0}) × Reply (List Text) × R → Outcome (Result (List ActionExecutionRequest)) × R
  expired (err e, r, s) = (returned (err storage_layer), s)
  expired (ok u, r, s) = polled (r, s)

  -- getExpiredFromSortedSet, and what the three polls make of its values.
  unfoldable pub poll_expired : Text → Exec R (Result (List ActionExecutionRequest))
  poll_expired queue s =
      let key = queue_key queue in
      let now = milliseconds (client.now s) in
      expired (client.pipeline_by_score key (pos 0) now (z_rem_range_by_score key (pos 0) now) s)

  -- Retry, PollRetry, Delay, PollDelay, Timeout and PollTimeout.
  unfoldable pub retry : Text → Text → Text → ℤ → ℤ → R → Result (Unit {0}) × R
  retry = put_off (lit "retry")

  unfoldable pub poll_retry : Exec R (Result (List ActionExecutionRequest))
  poll_retry = poll_expired (lit "retry")

  unfoldable pub delay : Text → Text → Text → ℤ → ℤ → R → Result (Unit {0}) × R
  delay = put_off (lit "delay")

  unfoldable pub poll_delay : Exec R (Result (List ActionExecutionRequest))
  poll_delay = poll_expired (lit "delay")

  unfoldable pub timeout : Text → Text → Text → ℤ → ℤ → R → Result (Unit {0}) × R
  timeout = put_off (lit "timeout")

  unfoldable pub poll_timeout : Exec R (Result (List ActionExecutionRequest))
  poll_timeout = poll_expired (lit "timeout")

  -- The implementation of the interface.
  abbrev pub redis_storage : Storage R
  redis_storage = record {
    save_flow_context = save_flow_context;
    get_flow_context = get_flow_context;
    delete_flow_context = delete_flow_context;
    save_flow_context_and_dispatch_action = save_flow_context_and_dispatch_action;
    poll_action = poll_action;
    ack = ack;
    retry = retry;
    poll_retry = poll_retry;
    delay = delay;
    poll_delay = poll_delay;
    timeout = timeout;
    poll_timeout = poll_timeout;
  }
