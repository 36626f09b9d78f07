-- ===== src/Persistence/Client.antt =====
-- What persistence/redis takes of go-redis, of the clock and of the encoders; and the keys of
-- persistence/redis/base_dao.go.
use orchy.Base.{◌/◌, ℤ, pos, negsuc, Text, List, [], ◌∷◌}
use orchy.Base.Strconv.{join}
use orchy.Model.{Error, Result}

-- A reply: a value, the error redis.Nil, or another error.
pub data Reply {ℓ} (A : Type ℓ) : Type ℓ where
  reply : A → Reply A
  nil_reply : Reply A
  failure : Error → Reply A

-- rd.Z
pub record Member : Type 0 where
  pub score : ℤ
  pub member : Text

-- The commands that are sent in a pipeline.
pub data Command : Type 0 where
  h_set : Text → Text → Text → Command
  z_add : Text → List Member → Command
  z_rem_range_by_score : Text → ℤ → ℤ → Command

-- redis.UniversalClient, over the state R of the server and the world around it.
pub record Client (R : Type 0) : Type 0 where
  pub set : Text → Text → R → Result (Unit {0}) × R
  pub get : Text → R → Reply Text × R
  pub del : Text → R → Result (Unit {0}) × R
  pub hset : Text → Text → Text → R → Result (Unit {0}) × R
  pub hget : Text → Text → R → Reply Text × R
  pub hdel : Text → Text → R → Result (Unit {0}) × R
  pub zadd : Text → List Member → R → Result (Unit {0}) × R
  pub zrange : Text → ℤ → ℤ → R → Reply (List Text) × R
  pub zrem : Text → List Text → R → Result (Unit {0}) × R
  pub lpush : Text → Text → R → Result (Unit {0}) × R
  pub lpop_count : Text → ℤ → R → Reply (List Text) × R
  -- TxPipelined: the commands, in a transaction.
  pub tx_pipelined : List Command → R → Result (Unit {0}) × R
  -- A pipeline of ZRANGEBYSCORE and then a command: the error of Exec, and the reply to the first.
  pub pipeline_by_score : Text → ℤ → ℤ → Command → R → Result (Unit {0}) × Reply (List Text) × R
  -- time.Now(), in nanoseconds since 1970.
  pub now : R → ℤ

-- UnixMilli
abbrev pub milliseconds : ℤ → ℤ
milliseconds (pos n) = pos (n / 1_000_000)
milliseconds (negsuc n) = negsuc (n / 1_000_000)

-- util.EncoderDecoder
pub record EncoderDecoder (T : Type 0) : Type 0 where
  pub encode : T → Result Text
  pub decode : Text → Result T

-- getNamespaceKey
unfoldable pub namespace_key : Text → List Text → Text
unfolding join
namespace_key namespace args = join (namespace ∷ join args ∷ [])
