-- ===== src/Tests/Queues.antt =====
-- The theorems on the queues of the workers.
use orchy.Base.{
  ◌+ℤ◌, ℤ, pos, pos_part, int_eq, int_beq, Text, text_eq, text_beq, lit, ◌==◌, if◌then◌else◌,
  Option, List, [], ◌∷◌, length, take, drop, ◌≤◌, ◌≡◌, refl, returned,
}
use orchy.Base.Map.{lookup, insert}
use orchy.Model.{ok, running}
use orchy.Persistence.Client.{Client, nil_reply}
use orchy.Persistence.Queue.{Proto, push, poll}
use orchy.Persistence.Queue.Stack.{Lists, popped_reply, poll-length, poll-push}
use orchy.Executor.Users.{ExternalQueue, queued}
use orchy.Cluster.Ring.{get_partitions, partitions_from}
use orchy.Cluster.Shards.{Cluster, Shard, registered}
use orchy.Cluster.Requests.{cluster_poll, poll_from, on_shard}
use orchy.Cluster.Requests.Bounds.{cluster_poll-length}
use orchy.Tests.Memory.{Memory, memory}
use orchy.Tests.Flows.{world, context, metadata}
use orchy.Tests.Nodes.{owners, ring_of, unshuffled, job}

-- A server that keeps lists only.
abbrev pub Server : Type 0
Server = Text → List Text

abbrev client : Client Server
client = record {
  set = λ key text s. (ok tt, s);
  get = λ key s. (nil_reply, s);
  del = λ key s. (ok tt, s);
  hset = λ key name text s. (ok tt, s);
  hget = λ key name s. (nil_reply, s);
  hdel = λ key name s. (ok tt, s);
  zadd = λ key members s. (ok tt, s);
  zrange = λ key min max s. (nil_reply, s);
  zrem = λ key members s. (ok tt, s);
  lpush = λ key text s. (ok tt, λ key'. if key == key' then text ∷ s key' else s key');
  lpop_count = λ key n s. (
    popped_reply (take (pos_part n) (s key)),
    λ key'. if key == key' then drop (pos_part n) (s key') else s key',
  );
  tx_pipelined = λ commands s. (ok tt, s);
  pipeline_by_score = λ key min max command s. (ok tt, nil_reply, s);
  now = λ s. pos 0;
}

abbrev lists : Lists client
lists = record {
  items = λ s. s;
  lpush_ok = λ key text s. refl;
  items-lpush = λ key text key' s. refl;
  lpop_law = λ key n s. refl;
  items-lpop = λ key n key' s. refl;
}

-- An encoding that knows one action.
abbrev proto : Proto
proto = record { marshal = λ a. ok (lit "job"); unmarshal = λ text. job }

abbrev pub two_jobs : Server
two_jobs key = lit "job" ∷ lit "job" ∷ []

abbrev pushed : Server
pushed = (push client proto (lit "orchy") (lit "1") job two_jobs).1

poll-push_example :
    ((poll client proto (lit "orchy") (lit "1") (lit "charge") (pos 1) pushed).0 ≡ ok (job ∷ []))
    × ((poll client proto (lit "orchy") (lit "1") (lit "charge") (pos 1) pushed).1
          (lit "orchy:charge:1")
        ≡ two_jobs (lit "orchy:charge:1"))
poll-push_example =
    poll-push client lists proto (lit "orchy") (lit "1") job (lit "job") (lit "orchy:charge:1")
      two_jobs refl refl

-- The queues over that server, by the ids of the shards.
abbrev pub external : Text → ExternalQueue Server
external shard_id = record {
  push = push client proto (lit "orchy") shard_id;
  poll = poll client proto (lit "orchy") shard_id;
}

abbrev pub shard : Text → Shard
shard name = record { id = name; machines = []; executors = registered }

abbrev pub cluster : Server → Cluster (ℤ → Option Text) Memory Server
cluster q = record {
  ring = ring_of (lit "a");
  shards = (pos 0, shard (lit "0")) ∷ (pos 1, shard (lit "1")) ∷ [];
  storage = (world (context running)).storage;
  queue = q;
  records = [];
}

jobs_polled :
    (cluster_poll owners unshuffled
      (λ shard_id. memory)
      metadata
      external
      (lit "charge")
      (pos 2)
      (cluster two_jobs)).0
    ≡ returned (job ∷ job ∷ [])
unfolding cluster_poll get_partitions partitions_from int_beq text_beq poll_from on_shard queued
    lookup insert poll take ◌+ℤ◌
jobs_polled = refl

cluster_poll-length_example : length (job ∷ job ∷ []) ≤ 2
cluster_poll-length_example =
    cluster_poll-length owners unshuffled (λ shard_id. memory) metadata external (lit "charge")
      (λ shard_id. poll-length client lists proto (lit "orchy") shard_id (lit "charge")) 2
      (cluster two_jobs) (job ∷ job ∷ []) jobs_polled
