-- ===== src/Rpc/Clients/Stepwise.antt =====
-- Any calls of clients move the stored context of a flow by steps.
use orchy.Base.{
  ℤ, int_eq, int_beq_iff, Text, text_eq, lit, Bool, Option, some, List, [], ◌∷◌, Outcome, returned,
  panicked, continue, pure, Exec, ◌≡◌, refl, sym, ap, ◌∙◌, arith,
}
use orchy.Base.Map.{lookup, insert, lookup-insert}
use orchy.Model.{Error, FlowContext}
use orchy.Action.{Libs}
use orchy.Flow.{Flow}
use orchy.Shard.Storage.{Storage}
use orchy.Shard.Storage.Reliable.{Reliable}
use orchy.Shard.Container.{World}
use orchy.Shard.Engine.{mark_paused}
use orchy.Shard.Engine.Resume.{execute_resume, execute_resume_after_wait}
use orchy.Shard.Requests.{resume, consume, serve}
use orchy.Shard.Steps.{Moves-append, Moves, here}
use orchy.Shard.Steps.Serve.{
  Event, requested, pause_asked, happen, run, run_own-Moves, run-IsCurrent,
}
use orchy.Executor.Users.{ExternalQueue, engine}
use orchy.Metadata.Store.{MetadataStore, service_of}
use orchy.Cluster.Ring.{Consistent, get_partition}
use orchy.Cluster.Shards.{Cluster, Shard}
use orchy.Cluster.Requests.{
  world_of, on_shard, for_flow, cluster_execute_resume, cluster_mark_paused,
  cluster_execute_resume_after_wait,
}
use orchy.Service.{ActionResult, resume_flow, pause_flow, consume_event}
use orchy.Rest.Definitions.{Request, Decoder}
use orchy.Rest.Flows.{handle_pause_flow, handle_resume_flow, handle_event}
use orchy.Rest.Routes.{Endpoint, ServerState, on_cluster, serve_http}
use orchy.Rpc.{Reply, rpc_push}
use orchy.Rpc.Pushes.{asked, informed, left_with, rpc_push_lem}
use orchy.Shard.Effect.Read.{IsCurrent}
use orchy.Rpc.Clients
use orchy.Rpc.Clients.{
  ClientStep, ClientRun, result_pushed, pause_requested, resume_requested, event_sent, no_call,
  then_call, IsReady,
}

-- A computation that only makes a value of the answer leaves the state that the call left.
pure-state :
    {C A B : Type 0} (o : Outcome A) (g : A → B) (c : C) → (continue o (λ a. pure (g a)) c).1 ≡ c
pure-state (returned a) g c = refl
pure-state panicked g c = refl

commanded-state :
    {C A B D : Type 0} (o : Outcome A) (b : B) (g : B → D) (c : C)
    → (let (r, c') = continue o (λ _. pure b) c in continue r (λ a. pure (g a)) c').1 ≡ c
commanded-state (returned a) b g c = refl
commanded-state panicked b g c = refl

module _ {H S Q R : Type 0} (hash_ring : Consistent H) (shuffle : List ℤ → List ℤ)
    (st : Text → Storage S) (store : MetadataStore R) (external : Text → ExternalQueue Q)
    (lib : Libs) (decoder : Decoder) (message : Error → Text) (wf id : Text) where
  abbrev Node : Type 0
  Node = ServerState H S Q R

  abbrev http : Endpoint → Request → Node → Node
  http = Clients.http hash_ring shuffle st store external lib decoder message wf id

  abbrev owner : Node → Option Shard
  owner = Clients.owner hash_ring shuffle st store external lib decoder message wf id

  abbrev view_of :
      ((shard_id : Text) → Reliable (st shard_id)) → Node → Option Shard → Option FlowContext
  view_of = Clients.view_of hash_ring shuffle st store external lib decoder message wf id

  abbrev stored_in : ((shard_id : Text) → Reliable (st shard_id)) → Node → Option FlowContext
  stored_in = Clients.stored_in hash_ring shuffle st store external lib decoder message wf id

  abbrev Ready : Flow → Node → Type 0
  Ready = IsReady hash_ring shuffle st store external lib decoder message wf id

  on_shard-left :
      {A : Type 0} (i : ℤ) (f : Text → Exec (World S) A) (c : Cluster H S Q) (sh : Shard)
      → lookup i c.shards ≡ some sh
      → (on_shard i (λ shard_id. engine (f shard_id)) c).1
        ≡ left_with c i sh (f sh.id (world_of c sh)).1
  unfolding on_shard engine
  on_shard-left i f c sh h = rw (on_shard, h) refl

  for_flow-left :
      {A : Type 0} (f : Text → Exec (World S) A) (n : Node) (sh : Shard)
      → owner n ≡ some sh
      → (for_flow hash_ring shuffle st (service_of store n.metadata) external id f n.cluster).1
        ≡ left_with n.cluster
            (get_partition hash_ring shuffle n.cluster.ring id)
            sh
            (f sh.id (world_of n.cluster sh)).1
  unfolding for_flow
  for_flow-left f n sh h =
      on_shard-left (get_partition hash_ring shuffle n.cluster.ring id) f n.cluster sh h

  module _ (rel : (shard_id : Text) → Reliable (st shard_id)) (fl : Flow) where
    -- A call that serves an event of the engine in a world of the flow's shard, after which the node
    -- has that world.
    served-IsReady :
        (e : Event) (n n' : Node) (ready : Ready fl n) (w0 : World S)
        → w0.storage ≡ n.cluster.storage
        → w0.machines ≡ ready.shard.machines
        → (let w = happen (st ready.shard.id) (service_of store n.metadata) lib wf id e w0 in
            (n'.cluster.ring ≡ n.cluster.ring)
            × (n'.metadata ≡ n.metadata)
            × (n'.cluster.shards
                ≡ insert
                    (get_partition hash_ring shuffle n.cluster.ring id)
                    (record ready.shard { machines = w.machines })
                    n.cluster.shards)
            × (n'.cluster.storage ≡ w.storage))
        → Ready fl n' × Moves fl (stored_in rel n) (stored_in rel n')
    unfolding run
    served-IsReady e n n' ready w0 es em (ring, meta, shards, storage) =
        let md = service_of store n.metadata in
        let sh = ready.shard in
        let w = happen (st sh.id) md lib wf id e w0 in
        let i = get_partition hash_ring shuffle n.cluster.ring id in
        let sh' : Shard = record sh { machines = w.machines } in
        let cur : IsCurrent wf id fl w0 = record {
          cached_flow = rw em ready.current.cached_flow;
        } in
        let kept =
          run-IsCurrent (st sh.id) (rel sh.id) md wf id fl ready.defined lib (e ∷ []) w0 cur in
        let steps =
          run_own-Moves (st sh.id) (rel sh.id) md wf id fl ready.defined lib (e ∷ []) w0 cur in
        let at : owner n' ≡ some sh' =
          rw (ring, shards)
            (ground (arith, int_beq_iff i i, lookup-insert i i sh' n.cluster.shards)) in
        (
          record {
            shard = sh';
            there = at;
            defined = rw meta ready.defined;
            current = record { cached_flow = kept.cached_flow };
          },
          rw (at, ready.there, storage, ← es) steps,
        )

    pushed-IsReady :
        (r : ActionResult) (n : Node) (ready : Ready fl n)
        → (let n' =
              (rpc_push hash_ring shuffle st store external
                (record r { workflow_name = wf; flow_id = id })
                n).1 in
            Ready fl n' × Moves fl (stored_in rel n) (stored_in rel n'))
    unfolding happen
    pushed-IsReady r n ready =
        let r' : ActionResult = record r { workflow_name = wf; flow_id = id } in
        let e =
          ap (λ (p : Outcome (Reply Bool) × Node). p.1)
            (rpc_push_lem hash_ring shuffle st store external lib r' n ready.shard ready.there) in
        served-IsReady (requested (asked r.status r')) n _ ready
          (world_of (informed hash_ring shuffle st store external lib r' n.cluster) ready.shard)
          refl refl (rw e (refl, refl, refl, refl))

    -- A request whose handler runs `f` on the engine of the flow's shard.
    command-IsReady :
        {A : Type 0} (e : Event) (f : Text → Exec (World S) A) (n n' : Node) (ready : Ready fl n)
        → (f ready.shard.id (world_of n.cluster ready.shard)).1
          ≡ happen
              (st ready.shard.id)
              (service_of store n.metadata)
              lib
              wf
              id
              e
              (world_of n.cluster ready.shard)
        → n'.metadata ≡ n.metadata
        → n'.cluster
          ≡ (for_flow hash_ring shuffle st (service_of store n.metadata) external id f n.cluster).1
        → Ready fl n' × Moves fl (stored_in rel n) (stored_in rel n')
    command-IsReady e f n n' ready ran meta made =
        let there = made ∙ for_flow-left f n ready.shard ready.there in
        served-IsReady e n n' ready (world_of n.cluster ready.shard) refl refl
          (rw there refl, meta, rw (there, ran) refl, rw (there, ran) refl)

    -- A request with the flow's names is one for the flow.
    named :
        {A : Type 0} (f : Text → Text → Text → Exec (World S) A) (n : Node) (x y : Text)
        → x ≡ wf
        → y ≡ id
        → (for_flow hash_ring shuffle st
            (service_of store n.metadata)
            external
            y
            (f x y)
            n.cluster).1
          ≡ (for_flow hash_ring shuffle st
              (service_of store n.metadata)
              external
              id
              (f wf id)
              n.cluster).1
    named f n x y e e' = rw (e, e') refl

    step-IsReady :
        {n n' : Node}
        → ClientStep hash_ring shuffle st store external lib decoder message wf id n n'
        → (ready : Ready fl n) → Ready fl n' × Moves fl (stored_in rel n) (stored_in rel n')
    unfolding happen serve serve_http on_cluster handle_pause_flow pause_flow cluster_mark_paused
        handle_resume_flow resume_flow cluster_execute_resume handle_event consume_event
        cluster_execute_resume_after_wait
    step-IsReady {n} (result_pushed r) ready = pushed-IsReady r n ready
    step-IsReady {n} (pause_requested req e e') ready =
        let service = service_of store n.metadata in
        command-IsReady pause_asked (λ s. mark_paused (st s) service wf id) n _ ready refl refl
          (commanded-state _ _ _ _ ∙ named (λ x y s. mark_paused (st s) service x y) n _ _ e e')
    step-IsReady {n} (resume_requested req e e') ready =
        let service = service_of store n.metadata in
        command-IsReady (requested (resume (lit "default")))
          (λ s. execute_resume (st s) service wf id (lit "default")) n _ ready refl refl
          (commanded-state _ _ _ _
            ∙ named (λ x y s. execute_resume (st s) service x y (lit "default")) n _ _ e e')
    step-IsReady {n} (event_sent req e e') ready =
        let service = service_of store n.metadata in
        let event = (decoder.event req.body).0.event in
        command-IsReady (requested (consume event))
          (λ s. execute_resume_after_wait (st s) service wf id event) n _ ready
          (sym (pure-state _ _ _)) refl
          (pure-state _ _ _
            ∙ named (λ x y s. execute_resume_after_wait (st s) service x y event) n _ _ e e')

    -- Whatever sequence of calls clients make about a flow, whether or not the calls panic: results
    -- that workers push, requests to pause or to resume the flow, and events. If the storages of the
    -- shards do not fail, and the node is ready for the flow at first, then it is ready for it at the
    -- end, and the context that the shard of the flow's partition stores for it moves by steps of the
    -- relation Move.
    pub ClientRun-Moves :
        {n n' : Node}
        → ClientRun hash_ring shuffle st store external lib decoder message wf id n n'
        → Ready fl n
        → Ready fl n' × Moves fl (stored_in rel n) (stored_in rel n')
    ClientRun-Moves no_call ready = (ready, here)
    ClientRun-Moves (then_call calls call) ready =
        let (still, before) = ClientRun-Moves calls ready in
        let (at_end, after) = step-IsReady call still in (at_end, Moves-append before after)
