-- ===== src/Persistence/ShardStorage/Isolation.antt =====
-- The storages of two shards over one server (persistence/redis/shard.go): their keys end in the
-- ids of the shards.
use orchy.Base.{
  ℤ, Text, text_eq, text_beq_iff, lit, false, ◌&&◌, ◌==◌, if◌then◌else◌, some, none, List, [], ◌∷◌,
  ◌++◌, ◌≡◌, ◌≢◌, refl, sym, ap, ◌∙◌, arith, inl, inr, ℕ, pos, ◌<◌, ◌^◌,
}
use mathlib.Core.List.{append_cancel_left}
use orchy.Base.Strconv.{join, itoa}
use orchy.Base.Strconv.Decimal.{itoa-injective, pos_lt}
use orchy.Base.Strconv.Split.{HasNoColon}
use orchy.Persistence.Message.RoundTrip.{itoa-HasNoColon}
use orchy.Model.{Result, FlowContext, ActionExecutionRequest, Result-cases}
use orchy.Persistence.Client.{Client, EncoderDecoder, namespace_key}
use orchy.Persistence.ShardStorage.{
  flow_key, save_flow_context, get_flow_context, delete_flow_context,
  save_flow_context_and_dispatch_action, add_to_sorted_set, put_off, text_of,
}
use orchy.Persistence.ShardStorage.Hashes.{Hashes}
use orchy.Persistence.ShardStorage.Reads.{only_adds, read_back, get-read_back}

has_colon : (x i : Text) → HasNoColon (x ++ (b':' ∷ i)) → ⊥
has_colon [] i h = h.0 refl
has_colon (c ∷ x) i h = has_colon x i h.1

last-injective :
    (x y i j : Text) → HasNoColon i → HasNoColon j → x ++ (b':' ∷ i) ≡ y ++ (b':' ∷ j) → i ≡ j
last-injective [] [] i j h k e = cc
last-injective [] (c ∷ y) i j h k e =
    let e' : i ≡ y ++ (b':' ∷ j) = cc in absurd (has_colon y j (rw e' at h))
last-injective (c ∷ x) [] i j h k e =
    let e' : x ++ (b':' ∷ i) ≡ j = cc in absurd (has_colon x i (rw (← e') at k))
last-injective (c ∷ x) (d ∷ y) i j h k e = last-injective x y i j h k cc

module _ {R : Type 0} (client : Client R) (encoder : EncoderDecoder FlowContext) (namespace : Text)
    (hashes : Hashes client) (i j : ℕ) (apart : i ≢ j) (low : i < 2 ^ 63) (low' : j < 2 ^ 63) where
  abbrev id_of : ℕ → Text
  id_of n = itoa (pos n)

  keys_apart :
      (wf wf' : Text)
      → (flow_key client encoder namespace (id_of i) wf
          == flow_key client encoder namespace (id_of j) wf')
        ≡ false
  unfolding namespace_key join
  keys_apart wf wf' =
      let differ : flow_key client encoder namespace (id_of i) wf
            ≡ flow_key client encoder namespace (id_of j) wf'
          → ⊥ =
        λ e.
          let ids =
            last-injective wf wf' (id_of i) (id_of j) (itoa-HasNoColon (pos i))
              (itoa-HasNoColon (pos j))
              (append_cancel_left (lit ":FLOW:") _ _ (append_cancel_left namespace _ _ e)) in
          let same : pos i ≡ pos j =
            itoa-injective (pos i) (pos j) (pos_lt low) (pos_lt low') ids in
          absurd (apart cc) in
      ground (
        arith,
        text_beq_iff (flow_key client encoder namespace (id_of i) wf)
            (flow_key client encoder namespace (id_of j) wf'),
        differ,
      )

  abbrev get : Text → Text → R → Result FlowContext
  get wf id s = (get_flow_context client encoder namespace (id_of j) wf id s).0

  same_read :
      (wf id : Text) (s s' : R)
      → hashes.value s' (flow_key client encoder namespace (id_of j) wf) id
        ≡ hashes.value s (flow_key client encoder namespace (id_of j) wf) id
      → get wf id s' ≡ get wf id s
  same_read wf id s s' h =
      get-read_back client encoder namespace (id_of j) hashes wf id s'
      ∙ ap (read_back client encoder namespace (id_of j) hashes) h
      ∙ sym (get-read_back client encoder namespace (id_of j) hashes wf id s)

  -- On a Redis server whose hashes keep their documentation: whatever a shard of NewCluster writes,
  -- a context, alone or with a dispatch of actions, the deletion of one, and an action that is put
  -- off, GetFlowContext of any other shard on the same server returns for every flow what it
  -- returned before.
  pub get_flow_context-isolated :
      (wf id wf' id' : Text) (c : FlowContext) (rs : List ActionExecutionRequest)
      (queue name : Text) (a d : ℤ) (s : R)
      → (get wf' id' (save_flow_context client encoder namespace (id_of i) wf id c s).1
          ≡ get wf' id' s)
        × (get wf' id'
              (save_flow_context_and_dispatch_action client encoder namespace
                (id_of i)
                wf
                id
                c
                rs
                s).1
            ≡ get wf' id' s)
        × (get wf' id' (delete_flow_context client encoder namespace (id_of i) wf id s).1
            ≡ get wf' id' s)
        × (get wf' id' (put_off client encoder namespace (id_of i) queue wf id name a d s).1
            ≡ get wf' id' s)
  unfolding save_flow_context save_flow_context_and_dispatch_action delete_flow_context put_off
      add_to_sorted_set
  get_flow_context-isolated wf id wf' id' c rs queue name a d s =
      let k = flow_key client encoder namespace (id_of j) wf' in
      let key = flow_key client encoder namespace (id_of i) wf in
      let differ = keys_apart wf wf' in
      (
        elim (Result-cases (encoder.encode c)) [
          | inl (problem, e) ↦ same_read wf' id' s _ (rw e refl)
          | inr (text, e) ↦ same_read wf' id' s _ (
              rw e (
                hashes.value-hset key id text k id' s
                ∙ ap (λ b. if b && id == id' then some text else hashes.value s k id') differ))
        ],
        same_read wf' id' s _ (
            hashes.value-tx _ k id' s
            ∙ only_adds client encoder namespace (id_of i) k id' _ _ _ _ _
            ∙ ap
                (λ b.
                  if b && id == id'
                  then some (text_of client encoder namespace (id_of i) (encoder.encode c))
                  else hashes.value s k id')
                differ),
        same_read wf' id' s _ (
            hashes.value-hdel key id k id' s
            ∙ ap (λ b. if b && id == id' then none else hashes.value s k id') differ),
        same_read wf' id' s _ (hashes.value-zadd _ _ k id' s),
      )
