-- ===== src/Persistence/ShardStorage/Hashes.antt =====
-- The hashes of a Redis server, as persistence/redis/shard.go uses them: what a client answers where
-- no call fails.
use orchy.Base.{Text, text_eq, ◌&&◌, ◌==◌, if◌then◌else◌, Option, none, some, List, [], ◌∷◌, ◌≡◌}
use orchy.Model.{ok}
use orchy.Persistence.Client.{
  Client, Reply, reply, nil_reply, Member, Command, h_set, z_add, z_rem_range_by_score,
}

-- HGET: redis.Nil where the key or the field is missing.
abbrev pub answer : Option Text → Reply Text
answer none = nil_reply
answer (some text) = reply text

-- What a field of a hash holds after commands, if it held `old` before.
abbrev pub after_commands : List Command → Text → Text → Option Text → Option Text
after_commands [] key name old = old
after_commands (h_set k f text ∷ commands) key name old =
    after_commands commands key name (if k == key && f == name then some text else old)
after_commands (z_add k members ∷ commands) key name old = after_commands commands key name old
after_commands (z_rem_range_by_score k min max ∷ commands) key name old =
    after_commands commands key name old

-- The field of each hash of the server, and what HGET, HSET, HDEL, ZADD and a transaction do with it.
pub record Hashes {R : Type 0} (client : Client R) : Type 0 where
  pub value : R → Text → Text → Option Text
  pub hget_law : (key name : Text) (s : R) → client.hget key name s ≡ (answer (value s key name), s)
  pub hset_ok : (key name text : Text) (s : R) → (client.hset key name text s).0 ≡ ok tt
  pub value-hset :
      (key name text key' name' : Text) (s : R)
      → value (client.hset key name text s).1 key' name'
        ≡ (if key == key' && name == name' then some text else value s key' name')
  pub value-hdel :
      (key name key' name' : Text) (s : R)
      → value (client.hdel key name s).1 key' name'
        ≡ (if key == key' && name == name' then none else value s key' name')
  pub value-zadd :
      (key : Text) (members : List Member) (key' name' : Text) (s : R)
      → value (client.zadd key members s).1 key' name' ≡ value s key' name'
  pub tx_ok : (commands : List Command) (s : R) → (client.tx_pipelined commands s).0 ≡ ok tt
  pub value-tx :
      (commands : List Command) (key' name' : Text) (s : R)
      → value (client.tx_pipelined commands s).1 key' name'
        ≡ after_commands commands key' name' (value s key' name')
