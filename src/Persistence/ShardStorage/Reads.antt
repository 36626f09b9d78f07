-- ===== src/Persistence/ShardStorage/Reads.antt =====
-- What GetFlowContext of persistence/redis/shard.go returns after a write.
use orchy.Base.{
  ℤ, Text, text_eq, text_beq_iff, lit, Bool, true, false, ◌&&◌, ◌==◌, if◌then◌else◌, Option, none,
  some, List, [], ◌∷◌, ◌++◌, ◌≡◌, refl, sym, ap, ◌∙◌, arith, Option-cases, inl, inr,
}
use mathlib.Core.List.{append_cancel_left, append_cancel_right}
use orchy.Base.Strconv.{join}
use orchy.Model.{Result, ok, err, storage_layer, FlowContext, ActionExecutionRequest}
use orchy.Shard.Storage.Reliable.{same}
use orchy.Persistence.Client.{Client, Member, EncoderDecoder, namespace_key}
use orchy.Persistence.ShardStorage.{
  flow_key, save_flow_context, get_flow_context, delete_flow_context,
  save_flow_context_and_dispatch_action, add_to_sorted_set, put_off, add_unless_empty,
}
use orchy.Persistence.ShardStorage.Hashes.{Hashes, after_commands}

-- The hashes of two workflows have two keys, whatever characters the names have.
module _ {R : Type 0} (client : Client R) (encoder : EncoderDecoder FlowContext)
    (namespace shard_id : Text) where
  abbrev pub key : Text → Text
  key = flow_key client encoder namespace shard_id

  key-injective : (wf wf' : Text) → key wf ≡ key wf' → wf ≡ wf'
  unfolding namespace_key join
  key-injective wf wf' e = append_cancel_right wf wf' (b':' ∷ shard_id) (
      append_cancel_left (lit ":FLOW:") (wf ++ (b':' ∷ shard_id)) (wf' ++ (b':' ∷ shard_id))
        (append_cancel_left namespace _ _ e))

  key_beq : (wf wf' : Text) → (key wf == key wf') ≡ (wf == wf')
  key_beq wf wf' =
      ground (arith, text_beq_iff wf wf', text_beq_iff (key wf) (key wf'), key-injective wf wf')

  -- The commands for the queues leave the hashes.
  pub only_adds :
      (k f queue queue' : Text) (ms ms' : List Member) (old : Option Text)
      → after_commands
          (add_unless_empty client encoder namespace shard_id queue ms
            ++ add_unless_empty client encoder namespace shard_id queue' ms')
          k
          f
          old
        ≡ old
  only_adds k f queue queue' [] [] old = refl
  only_adds k f queue queue' [] (m ∷ ms') old = refl
  only_adds k f queue queue' (m ∷ ms) [] old = refl
  only_adds k f queue queue' (m ∷ ms) (m' ∷ ms') old = refl

  module _ (hashes : Hashes client) where
    -- GetFlowContext, as a function of the field.
    abbrev pub read_back : Option Text → Result FlowContext
    read_back none = err storage_layer
    read_back (some text) = encoder.decode text

    pub get-read_back :
        (wf id : Text) (s : R)
        → (get_flow_context client encoder namespace shard_id wf id s).0
          ≡ read_back (hashes.value s (key wf) id)
    unfolding get_flow_context
    get-read_back wf id s = elim (Option-cases (hashes.value s (key wf) id)) [
      | inl e ↦ rw (hashes.hget_law (key wf) id s, e) refl
      | inr (text, e) ↦ rw (hashes.hget_law (key wf) id s, e) refl
    ]

    abbrev pub get : Text → Text → R → Result FlowContext
    get wf id s = (get_flow_context client encoder namespace shard_id wf id s).0

    read_choice :
        (b : Bool) (text : Text) (old : Option Text) (c : FlowContext)
        → encoder.decode text ≡ ok c
        → read_back (if b then some text else old) ≡ (if b then ok c else read_back old)
    read_choice true text old c e = e
    read_choice false text old c e = refl

    read_missing :
        (b : Bool) (old : Option Text)
        → read_back (if b then none else old) ≡ (if b then err storage_layer else read_back old)
    read_missing true old = refl
    read_missing false old = refl

    module _ (wf id : Text) (c : FlowContext) (text : Text) (encoded : encoder.encode c ≡ ok text)
        (decoded : encoder.decode text ≡ ok c) (wf' id' : Text) (s : R) where
      abbrev Written : R → Type 0
      Written s' =
          hashes.value s' (key wf') id'
          ≡ (if same wf id wf' id' then some text else hashes.value s (key wf') id')

      value-save : Written (save_flow_context client encoder namespace shard_id wf id c s).1
      unfolding save_flow_context
      value-save = rw (encoded) (
          hashes.value-hset (key wf) id text (key wf') id' s
          ∙ ap (λ b. if b && id == id' then some text else hashes.value s (key wf') id')
              (key_beq wf wf'))

      value-dispatch :
          (rs : List ActionExecutionRequest)
          → Written
              (save_flow_context_and_dispatch_action client encoder namespace shard_id wf id c rs
                s).1
      unfolding save_flow_context_and_dispatch_action
      value-dispatch rs = rw (encoded) (
          hashes.value-tx _ (key wf') id' s
          ∙ only_adds (key wf') id' _ _ _ _ _
          ∙ ap (λ b. if b && id == id' then some text else hashes.value s (key wf') id')
              (key_beq wf wf'))

      value-delete :
          hashes.value
            (delete_flow_context client encoder namespace shard_id wf id s).1
            (key wf')
            id'
          ≡ (if same wf id wf' id' then none else hashes.value s (key wf') id')
      unfolding delete_flow_context
      value-delete =
          hashes.value-hdel (key wf) id (key wf') id' s
          ∙ ap (λ b. if b && id == id' then none else hashes.value s (key wf') id') (key_beq wf wf')

      read-Written :
          (s' : R)
          → Written s'
          → get wf' id' s' ≡ (if same wf id wf' id' then ok c else get wf' id' s)
      read-Written s' h =
          get-read_back wf' id' s'
          ∙ ap read_back h
          ∙ read_choice (same wf id wf' id') text (hashes.value s (key wf') id') c decoded
          ∙ ap (λ r. if same wf id wf' id' then ok c else r) (sym (get-read_back wf' id' s))

      -- What GetFlowContext returns for any flow, after a context was saved, alone or with a dispatch
      -- of actions, after the context was deleted, and after an action of the flow was put off: for the
      -- flow itself the context that was saved, the error for a missing context, and what it was; for
      -- another flow what it was. Redis answers, and the encoded context is decoded as it was.
      pub get_flow_context-writes :
          (rs : List ActionExecutionRequest) (queue name : Text) (a d : ℤ)
          → (get wf' id' (save_flow_context client encoder namespace shard_id wf id c s).1
              ≡ (if same wf id wf' id' then ok c else get wf' id' s))
            × (get wf' id'
                  (save_flow_context_and_dispatch_action client encoder namespace shard_id wf id c
                    rs s).1
                ≡ (if same wf id wf' id' then ok c else get wf' id' s))
            × (get wf' id' (delete_flow_context client encoder namespace shard_id wf id s).1
                ≡ (if same wf id wf' id' then err storage_layer else get wf' id' s))
            × (get wf' id' (put_off client encoder namespace shard_id queue wf id name a d s).1
                ≡ get wf' id' s)
      unfolding put_off add_to_sorted_set
      get_flow_context-writes rs queue name a d = (
        read-Written _ value-save,
        read-Written _ (value-dispatch rs),
        get-read_back wf' id' _
            ∙ ap read_back value-delete
            ∙ read_missing (same wf id wf' id') (hashes.value s (key wf') id')
            ∙ ap (λ r. if same wf id wf' id' then err storage_layer else r)
                (sym (get-read_back wf' id' s)),
        get-read_back wf' id' _
            ∙ ap read_back (hashes.value-zadd _ _ (key wf') id' s)
            ∙ sym (get-read_back wf' id' s),
      )
