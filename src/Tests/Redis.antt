-- ===== src/Tests/Redis.antt =====
-- The theorems on the package persistence/redis.
use orchy.Base.{
  pos, negsuc, Text, text_eq, lit, ◌&&◌, ◌==◌, if◌then◌else◌, Option, none, some, [], ◌∷◌, map,
  returned, ◌≡◌, refl, arith,
}
use orchy.Base.Strconv.Decimal.{IsInt64, negsuc_lt}
use orchy.Base.Strconv.Split.{HasNoColon}
use orchy.Model.{Result, ok, err, storage_layer, running, FlowContext, ActionExecutionRequest}
use orchy.Shard.Storage.Reliable.{same}
use orchy.Persistence.Client.{Client, nil_reply, EncoderDecoder}
use orchy.Persistence.Message.{parse_messages, message_of}
use orchy.Persistence.Message.RoundTrip.{polled_request, IsPlain, parse_messages-map}
use orchy.Persistence.ShardStorage.{
  save_flow_context, save_flow_context_and_dispatch_action, delete_flow_context, get_flow_context,
  put_off,
}
use orchy.Persistence.ShardStorage.Hashes.{Hashes, answer, after_commands}
use orchy.Persistence.ShardStorage.Reads.{get_flow_context-writes}
use orchy.Persistence.ShardStorage.Isolation.{get_flow_context-isolated}
use orchy.Base.Strconv.{itoa}
use orchy.Tests.Flows.{context, wf, id}

-- A server that keeps hashes only.
abbrev Server : Type 0
Server = Text → Text → Option Text

abbrev set_field : Text → Text → Option Text → Server → Server
set_field key name text s key' name' = if key == key' && name == name' then text else s key' name'

abbrev client : Client Server
client = record {
  set = λ key text s. (ok tt, s);
  get = λ key s. (nil_reply, s);
  del = λ key s. (ok tt, s);
  hset = λ key name text s. (ok tt, set_field key name (some text) s);
  hget = λ key name s. (answer (s key name), s);
  hdel = λ key name s. (ok tt, set_field key name none s);
  zadd = λ key members s. (ok tt, s);
  zrange = λ key min max s. (nil_reply, s);
  zrem = λ key members s. (ok tt, s);
  lpush = λ key text s. (ok tt, s);
  lpop_count = λ key n s. (nil_reply, s);
  tx_pipelined = λ commands s. (ok tt, λ key name. after_commands commands key name (s key name));
  pipeline_by_score = λ key min max command s. (ok tt, nil_reply, s);
  now = λ s. pos 0;
}

abbrev hashes : Hashes client
hashes = record {
  value = λ s. s;
  hget_law = λ key name s. refl;
  hset_ok = λ key name text s. refl;
  value-hset = λ key name text key' name' s. refl;
  value-hdel = λ key name key' name' s. refl;
  value-zadd = λ key members key' name' s. refl;
  tx_ok = λ commands s. refl;
  value-tx = λ commands key' name' s. refl;
}

-- An encoder that knows one context.
abbrev encoder : EncoderDecoder FlowContext
encoder = record { encode = λ c. ok (lit "{}"); decode = λ text. ok (context running) }

abbrev empty : Server
empty key name = none

-- The context that is read, of the flow itself.
abbrev read : Server → Result FlowContext
read s = (get_flow_context client encoder (lit "orchy") (lit "3") wf id s).0

get_flow_context-writes_example :
    (read (save_flow_context client encoder (lit "orchy") (lit "3") wf id (context running) empty).1
      ≡ (if same wf id wf id then ok (context running) else read empty))
    × (read
          (save_flow_context_and_dispatch_action client encoder
            (lit "orchy")
            (lit "3")
            wf
            id
            (context running)
            []
            empty).1
        ≡ (if same wf id wf id then ok (context running) else read empty))
    × (read (delete_flow_context client encoder (lit "orchy") (lit "3") wf id empty).1
        ≡ (if same wf id wf id then err storage_layer else read empty))
    × (read
          (put_off client encoder
            (lit "orchy")
            (lit "3")
            (lit "retry")
            wf
            id
            (lit "charge")
            (pos 1)
            (pos 5)
            empty).1
        ≡ read empty)
get_flow_context-writes_example =
    get_flow_context-writes client encoder (lit "orchy") (lit "3") hashes wf id (context running)
      (lit "{}") refl refl wf id empty [] (lit "retry") (lit "charge") (pos 1) (pos 5)

-- The context as the shard 4 reads it.
abbrev read_other : Server → Result FlowContext
read_other s = (get_flow_context client encoder (lit "orchy") (itoa (pos 4)) wf id s).0

get_flow_context-isolated_example :
    (read_other
        (save_flow_context client encoder
          (lit "orchy")
          (itoa (pos 3))
          wf
          id
          (context running)
          empty).1
      ≡ read_other empty)
    × (read_other
          (save_flow_context_and_dispatch_action client encoder
            (lit "orchy")
            (itoa (pos 3))
            wf
            id
            (context running)
            []
            empty).1
        ≡ read_other empty)
    × (read_other (delete_flow_context client encoder (lit "orchy") (itoa (pos 3)) wf id empty).1
        ≡ read_other empty)
    × (read_other
          (put_off client encoder
            (lit "orchy")
            (itoa (pos 3))
            (lit "retry")
            wf
            id
            (lit "charge")
            (pos 1)
            (pos 5)
            empty).1
        ≡ read_other empty)
get_flow_context-isolated_example =
    get_flow_context-isolated client encoder (lit "orchy") hashes 3 4 (λ h. omega (arith, h))
      (omega arith) (omega arith) wf id wf id (context running) [] (lit "retry") (lit "charge")
      (pos 1) (pos 5) empty

order-HasNoColon : HasNoColon (lit "order")
order-HasNoColon = (omega arith, (omega arith, (omega arith, (omega arith, (omega arith, tt)))))

f1-HasNoColon : HasNoColon (lit "f1")
f1-HasNoColon = (omega arith, (omega arith, tt))

small : IsInt64 (negsuc 119)
small = negsuc_lt (omega arith)

abbrev polled : ActionExecutionRequest
polled = polled_request (lit "order") (lit "f1") (lit "f1") (negsuc 119)

plain : IsPlain polled
plain = record {
  workflow_plain = order-HasNoColon;
  flow_plain = f1-HasNoColon;
  action_plain = f1-HasNoColon;
  id_fits = small;
  kindless = refl;
}

parse_messages-map_example :
    parse_messages (map message_of (polled ∷ polled ∷ [])) ≡ returned (polled ∷ polled ∷ [])
parse_messages-map_example = parse_messages-map (polled ∷ polled ∷ []) (plain, (plain, tt))
