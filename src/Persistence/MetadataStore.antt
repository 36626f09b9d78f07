-- ===== src/Persistence/MetadataStore.antt =====
-- redisMetadataStorage of persistence/redis/metadata.go.
use orchy.Base.{Text, lit, [], ◌∷◌}
use orchy.Model.{Result, ok, err, storage_layer, client_error, Workflow, ActionDefinition}
use orchy.Persistence.Client.{
  Client, Reply, reply, nil_reply, failure, EncoderDecoder, namespace_key,
}

module _ {R : Type 0} (client : Client R) (workflows : EncoderDecoder Workflow)
    (actions : EncoderDecoder ActionDefinition) (namespace : Text) where
  abbrev workflow_key : Text → Text
  workflow_key name = namespace_key namespace (lit "WORKFLOW" ∷ name ∷ [])

  abbrev action_key : Text
  action_key = namespace_key namespace (lit "ACTION" ∷ [])

  abbrev to_storage_error : Result (Unit {0}) × R → Result (Unit {0}) × R
  to_storage_error (ok u, s) = (ok u, s)
  to_storage_error (err e, s) = (err storage_layer, s)

  abbrev set_workflow : Text → Result Text → R → Result (Unit {0}) × R
  set_workflow name (err e) s = (err e, s)
  set_workflow name (ok text) s = client.set (workflow_key name) text s

  -- SaveWorkflowDefinition
  unfoldable pub save_workflow_definition : Workflow → R → Result (Unit {0}) × R
  save_workflow_definition wf s = set_workflow wf.name (workflows.encode wf) s

  -- DeleteWorkflowDefinition
  unfoldable pub delete_workflow_definition : Text → R → Result (Unit {0}) × R
  delete_workflow_definition name s = client.del (workflow_key name) s

  abbrev decoded_workflow : Reply Text × R → Result Workflow × R
  decoded_workflow (reply text, s) = (workflows.decode text, s)
  decoded_workflow (nil_reply, s) = (err client_error, s)
  decoded_workflow (failure e, s) = (err e, s)

  -- GetWorkflowDefinition
  unfoldable pub get_workflow_definition : Text → R → Result Workflow × R
  get_workflow_definition name s = decoded_workflow (client.get (workflow_key name) s)

  abbrev set_action : Text → Result Text → R → Result (Unit {0}) × R
  set_action name (err e) s = (err e, s)
  set_action name (ok text) s = to_storage_error (client.hset action_key name text s)

  -- SaveActionDefinition
  unfoldable pub save_action_definition : ActionDefinition → R → Result (Unit {0}) × R
  save_action_definition d s = set_action d.name (actions.encode d) s

  -- DeleteActionDefinition
  unfoldable pub delete_action_definition : Text → R → Result (Unit {0}) × R
  delete_action_definition name s = to_storage_error (client.hdel action_key name s)

  abbrev decoded_action : Reply Text × R → Result ActionDefinition × R
  decoded_action (reply text, s) = (actions.decode text, s)
  decoded_action (nil_reply, s) = (err storage_layer, s)
  decoded_action (failure e, s) = (err storage_layer, s)

  -- GetActionDefinition
  unfoldable pub get_action_definition : Text → R → Result ActionDefinition × R
  get_action_definition name s = decoded_action (client.hget action_key name s)
