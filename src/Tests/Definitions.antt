-- ===== src/Tests/Definitions.antt =====
-- The theorems on the handlers of the REST interface.
use orchy.Base.{
  ℤ, pos, int_eq, int_beq, Text, text_eq, text_beq, lit, true, false, if◌then◌else◌, ◌==◌, ==_refl,
  Option, none, some, [], ◌∷◌, All, Outcome, returned, panicked, ◌≡◌, refl,
}
use orchy.Base.Map.{lookup, insert}
use orchy.Base.Strconv.{equal_fold}
use orchy.Model.{Error, Result, ok, err, client_error, Workflow}
use orchy.Model.Value.{end}
use orchy.Action.{to_action_type, new_base_action, validate_action_type, validate}
use orchy.Flow.{Flow, validate_state_handler}
use orchy.Metadata.{
  build_action, build_actions, all_actions, check_next, check_groups, check_targets, check_actions,
  check_built, validate_flow, get_flow,
}
use orchy.Metadata.Store.{MetadataStore, KeepsWorkflows, reads, service_of}
use orchy.Metadata.Walk.Leaves.{IsSetOf, IsLeaf}
use orchy.Rest.Response.{Response, no_response, write_header, write, set_json, respond_ok}
use orchy.Rest.Definitions.{Request, Decoder, checked, handle_create_flow}
use orchy.Rest.Routes.{ServerState, pausing_flow, serve_http, on_cluster}
use orchy.Rest.Saved.{handle_create_flow-get_flow}
use orchy.Rest.Statuses.{is_command, can_read, serve_http-status}
use orchy.Rest.Flows.{handle_pause_flow}
use orchy.Service.{pause_flow}
use orchy.Cluster.Ring.{get_partition}
use orchy.Cluster.Requests.{cluster_mark_paused, for_flow, on_shard}
use orchy.Shard.Engine.{mark_paused, change_state_with_event}
use orchy.Shard.Container.{get, cached, call}
use orchy.Executor.Users.{engine}
use orchy.Tests.Memory.{Memory, memory}
use orchy.Tests.Nodes.{owners, unshuffled}
use orchy.Tests.Queues.{Server, two_jobs, external, cluster}
use orchy.Tests.Flows.{libs, definition}
use orchy.Tests.Workflows.{ordering, acyclic, rank, built}

-- A storage that has one workflow, or none.
abbrev Kept : Type 0
Kept = Option Workflow

abbrev found : Text → Kept → Result Workflow
found name none = err client_error
found name (some wf) = if wf.name == name then ok wf else err client_error

abbrev store : MetadataStore Kept
store = record {
  save_workflow_definition = λ wf s. (ok tt, some wf);
  delete_workflow_definition = λ name s. (ok tt, none);
  get_workflow_definition = λ name s. (found name s, s);
  save_action_definition = λ d s. (ok tt, s);
  delete_action_definition = λ name s. (ok tt, s);
  get_action_definition = λ name s. (ok definition, s);
}

keeps : KeepsWorkflows store
keeps = record { get_saved = λ wf s h. rw (==_refl wf.name) refl }

-- Every body is read as the workflow `order`; that of an action definition has a mistake.
abbrev pub decoder : Decoder
decoder = record {
  workflow = λ body. (ordering, true);
  action_definition = λ body. (definition, false);
  run_request = λ body. (record { name = lit "order"; input = end }, true);
  event = λ body. (record { name = lit "order"; flow_id = lit "f1"; event = lit "paid" }, true);
}

abbrev pub message : Error → Text
message e = lit "refused"

abbrev pub request : Request
request = record { body = lit "{}"; vars = (lit "name", lit "order") ∷ (lit "id", lit "f1") ∷ [] }

accepted : (handle_create_flow store libs decoder message request none).0.status ≡ some 200
unfolding handle_create_flow validate_flow validate_state_handler check_actions all_actions
    check_built build_actions check_next check_groups check_targets lookup insert
    validate_action_type validate build_action to_action_type new_base_action equal_fold int_beq
    text_beq reads checked respond_ok write write_header set_json
accepted = refl

abbrev saved : Kept
saved = (handle_create_flow store libs decoder message request none).1

handle_create_flow-get_flow_example :
    (fl : Flow) × ((service_of store saved).get_flow (lit "order") (lit "f1") ≡ some (ok fl))
    × (fl.root_action ≡ pos 1)
    × (fl.actions ≡ built)
    × All (IsSetOf (IsLeaf built)) fl.terminal_actions
handle_create_flow-get_flow_example =
    handle_create_flow-get_flow store libs decoder message keeps request none (lit "f1") rank
      accepted acyclic

-- A node whose storage has no flow of the workflow `other`.
abbrev node : ServerState (ℤ → Option Text) Memory Server Kept
node = record { cluster = cluster two_jobs; metadata = none }

abbrev other_flow : Request
other_flow = record { body = []; vars = (lit "name", lit "other") ∷ (lit "id", lit "f9") ∷ [] }

abbrev pausing : Outcome Response × ServerState (ℤ → Option Text) Memory Server Kept
pausing =
    serve_http owners unshuffled (λ shard_id. memory) store external libs decoder message
      pausing_flow other_flow node

abbrev value_of : Outcome Response → Response
value_of (returned w) = w
value_of panicked = no_response

command : is_command pausing_flow ≡ true
unfolding is_command
command = refl

paused : pausing ≡ (returned (value_of pausing.0), pausing.1)
unfolding serve_http on_cluster handle_pause_flow pause_flow cluster_mark_paused for_flow on_shard
    get_partition lookup int_beq text_beq mark_paused change_state_with_event get engine cached call
    service_of get_flow reads
paused = refl

serve_http-status_example :
    (value_of pausing.0).status
    ≡ some (if can_read decoder pausing_flow other_flow then 200 else 400)
serve_http-status_example =
    serve_http-status owners unshuffled (λ shard_id. memory) store external libs decoder message
      pausing_flow other_flow node pausing.1 (value_of pausing.0) command paused
