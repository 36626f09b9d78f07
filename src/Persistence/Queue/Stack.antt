-- ===== src/Persistence/Queue/Stack.antt =====
-- The queue of the workers (persistence/redis/queue.go) over the lists of a Redis server.
use orchy.Base.{
  ℕ, pos, Text, text_eq, ==_refl, if◌then◌else◌, ◌==◌, List, [], ◌∷◌, map, length, take, drop,
  length-take, ◌≤◌, ap, ◌≡◌, arith,
}
use orchy.Model.{Result, ok}
use orchy.Persistence.Client.{Client, Reply, reply, nil_reply, namespace_key}
use orchy.Persistence.Queue.{WorkerAction, Proto, push, poll}

-- LPOP of an empty list is nil.
abbrev pub popped_reply : List Text → Reply (List Text)
popped_reply [] = nil_reply
popped_reply (text ∷ texts) = reply (text ∷ texts)

-- The lists of the server, and what LPUSH and LPOP do with them where no call fails.
pub record Lists {R : Type 0} (client : Client R) : Type 0 where
  pub items : R → Text → List Text
  pub lpush_ok : (key text : Text) (s : R) → (client.lpush key text s).0 ≡ ok tt
  pub items-lpush :
      (key text key' : Text) (s : R)
      → items (client.lpush key text s).1 key'
        ≡ (if key == key' then text ∷ items s key' else items s key')
  pub lpop_law :
      (key : Text) (n : ℕ) (s : R)
      → (client.lpop_count key (pos n) s).0 ≡ popped_reply (take n (items s key))
  pub items-lpop :
      (key : Text) (n : ℕ) (key' : Text) (s : R)
      → items (client.lpop_count key (pos n) s).1 key'
        ≡ (if key == key' then drop n (items s key') else items s key')

module _ {R : Type 0} (client : Client R) (lists : Lists client) (proto : Proto)
    (namespace shard_id : Text) where
  abbrev key : Text → Text
  key name = namespace_key namespace (name ∷ shard_id ∷ [])

  abbrev popped : List Text → Result (List WorkerAction)
  popped texts = ok (map proto.unmarshal texts)

  poll_lem :
      (name : Text) (n : ℕ) (s : R)
      → (poll client proto namespace shard_id name (pos n) s).0
        ≡ popped (take n (lists.items s (key name)))
  unfolding poll
  poll_lem name n s = ground (arith, lists.lpop_law (key name) n s)

  length-map : (texts : List Text) → length (map proto.unmarshal texts) ≡ length texts
  length-map [] = omega arith
  length-map (x ∷ texts) = omega (arith, length-map texts)

  items-poll :
      (name : Text) (n : ℕ) (k : Text) (s : R)
      → lists.items (poll client proto namespace shard_id name (pos n) s).1 k
        ≡ (if key name == k then drop n (lists.items s k) else lists.items s k)
  unfolding poll
  items-poll name n k s =
      ground (arith, lists.lpop_law (key name) n s, lists.items-lpop (key name) n k s)

  -- Poll returns at most as many actions as the worker asks for.
  pub poll-length :
      (name : Text) (n : ℕ) (s : R) (actions : List WorkerAction)
      → (poll client proto namespace shard_id name (pos n) s).0 ≡ ok actions
      → length actions ≤ n
  poll-length name n s actions e =
      let texts = take n (lists.items s (key name)) in
      let same : map proto.unmarshal texts ≡ actions = ground (arith, e, poll_lem name n s) in
      omega (
        arith,
        ap (λ (l : List WorkerAction). length l) same,
        length-map texts,
        length-take n (lists.items s (key name)),
      )

  items-push :
      (a : WorkerAction) (text k : Text) (s : R)
      → proto.marshal a ≡ ok text
      → lists.items (push client proto namespace shard_id a s).1 k
        ≡ (if key a.action_name == k then text ∷ lists.items s k else lists.items s k)
  unfolding push
  items-push a text k s e = ground (
    arith,
    e,
    lists.lpush_ok (key a.action_name) text s,
    lists.items-lpush (key a.action_name) text k s,
  )

  -- The last action that was pushed is the first that a worker gets: a poll for one action of its name
  -- returns it, as it was encoded and decoded, and leaves every queue as it was before the push.
  pub poll-push :
      (a : WorkerAction) (text k : Text) (s : R)
      → proto.marshal a ≡ ok text
      → proto.unmarshal text ≡ a
      → ((poll client proto namespace shard_id a.action_name
            (pos 1)
            (push client proto namespace shard_id a s).1).0
          ≡ ok (a ∷ []))
        × (lists.items
              (poll client proto namespace shard_id a.action_name
                (pos 1)
                (push client proto namespace shard_id a s).1).1
              k
            ≡ lists.items s k)
  unfolding take drop
  poll-push a text k s e e' =
      let s' = (push client proto namespace shard_id a s).1 in
      (
        ground (
          arith,
          poll_lem a.action_name 1 s',
          items-push a text (key a.action_name) s e,
          e',
          ==_refl (key a.action_name),
        ),
        ground (arith, items-poll a.action_name 1 k s', items-push a text k s e),
      )
