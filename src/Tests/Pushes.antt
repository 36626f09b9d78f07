-- ===== src/Tests/Pushes.antt =====
-- The theorems on the results that workers push, and on the calls of clients.
use orchy.Base.{ℤ, pos, int_eq, int_beq, text_beq, Text, lit, Option, some, ◌≡◌, refl}
use orchy.Base.Map.{lookup}
use orchy.Model.{ok, running, FlowContext}
use orchy.Model.Value.{end}
use orchy.Flow.{Flow}
use orchy.Metadata.Store.{MetadataStore, reads, service_of}
use orchy.Metadata.Graph.{get_flow_total}
use orchy.Cluster.Ring.{get_partition}
use orchy.Cluster.Requests.{world_of}
use orchy.Shard.Storage.{Storage}
use orchy.Cluster.Shards.{Shard}
use orchy.Rest.Definitions.{path_var}
use orchy.Rest.Routes.{ServerState}
use orchy.Service.{ActionResult, succeeded}
use orchy.Shard.Effect.Read.{IsCurrent}
use orchy.Shard.Steps.{Moves}
use orchy.Rpc.{rpc_push}
use orchy.Rpc.Clients.Stepwise.{ClientRun-Moves}
use orchy.Rpc.Clients.{
  ClientRun, no_call, then_call, result_pushed, pause_requested, event_sent, IsReady, stored_in,
}
use orchy.Tests.Definitions.{decoder, message, request}
use orchy.Rpc.Pushes.{answered, after, partition, served, rpc_push-Moves}
use orchy.Tests.Memory.{Memory, memory, reliable_memory}
use orchy.Tests.Nodes.{owners, unshuffled}
use orchy.Tests.Queues.{Server, two_jobs, external, cluster, shard}
use orchy.Tests.Flows.{libs, definition, context}
use orchy.Tests.Workflows.{ordering, accepted, acyclic, rank, keeping}

-- A storage that has the workflow `order`.
abbrev store : MetadataStore Unit
store = record {
  save_workflow_definition = λ wf s. (ok tt, s);
  delete_workflow_definition = λ name s. (ok tt, s);
  get_workflow_definition = λ name s. (ok ordering, s);
  save_action_definition = λ d s. (ok tt, s);
  delete_action_definition = λ name s. (ok tt, s);
  get_action_definition = λ name s. (ok definition, s);
}

-- Each shard has its storage.
abbrev memories : Text → Storage Memory
memories shard_id = memory

abbrev node : ServerState (ℤ → Option Text) Memory Server Unit
node = record { cluster = cluster two_jobs; metadata = tt }

-- The first action of the flow `f1` has succeeded.
abbrev charged : ActionResult
charged = record {
  workflow_name = lit "order";
  action_name = lit "charge";
  flow_id = lit "f1";
  action_id = pos 1;
  result_data = end;
  status = succeeded;
}

found : (fl : Flow) × ((service_of store tt).get_flow (lit "order") (lit "f1") ≡ some (ok fl))
unfolding service_of reads
found =
    let (fl, e, _, _, _) =
      get_flow_total (keeping ordering) ordering (lit "order") (lit "f1") refl libs rank accepted
        acyclic in
    (fl, e)

abbrev owner : Shard
owner = shard (lit "0")

owned :
    lookup
      (partition owners unshuffled memories store external libs charged node)
      node.cluster.shards
    ≡ some owner
unfolding lookup get_partition int_beq
owned = refl

fresh : IsCurrent (lit "order") (lit "f1") found.0 (world_of node.cluster owner)
unfolding lookup
fresh = record { cached_flow = λ m h. cc }

rpc_push-Moves_example :
    (rpc_push owners unshuffled memories store external charged node ≡ (
      answered (served owners unshuffled memories store external libs charged node owner).0,
      after owners unshuffled memories store external libs charged node owner,
    ))
    × Moves found.0 (some (context running)) (
        (served owners unshuffled memories store external libs charged node
            owner).1.storage.contexts
          (lit "order")
          (lit "f1"))
rpc_push-Moves_example =
    rpc_push-Moves owners unshuffled memories store external libs charged node owner reliable_memory
      found.0 owned found.1 fresh

abbrev State : Type 0
State = ServerState (ℤ → Option Text) Memory Server Unit

abbrev Calls : State → State → Type 0
Calls =
    ClientRun owners unshuffled memories store external libs decoder message (lit "order")
      (lit "f1")

-- The result of the first action comes, the flow is paused, and an event is sent.
called : (n' : State) × Calls node n'
unfolding lookup path_var text_beq
called = (
  _,
  then_call
      (then_call (then_call no_call (result_pushed charged)) (pause_requested request refl refl))
      (event_sent request refl refl),
)

abbrev Ready : State → Type 0
Ready =
    IsReady owners unshuffled memories store external libs decoder message (lit "order") (lit "f1")
      found.0

ready : Ready node
unfolding get_partition lookup int_beq
ready = record { shard = owner; there = refl; defined = found.1; current = fresh }

abbrev stored_by : State → Option FlowContext
stored_by =
    stored_in owners unshuffled memories store external libs decoder message (lit "order")
      (lit "f1") (λ shard_id. reliable_memory)

ClientRun-Moves_example : Ready called.0 × Moves found.0 (stored_by node) (stored_by called.0)
ClientRun-Moves_example =
    ClientRun-Moves owners unshuffled memories store external libs decoder message (lit "order")
      (lit "f1") (λ shard_id. reliable_memory) found.0 called.1 ready
