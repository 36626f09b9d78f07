-- ===== src/Metadata/Store.antt =====
-- metadata/storage.go with its writes, over the state R of a storage; and MetadataServiceImpl as the
-- engine and the REST interface use it on a state of the storage.
use orchy.Base.{Text, ◌≡◌}
use orchy.Model.{Result, ok, Workflow, ActionDefinition}
use orchy.Shard.Container.{MetadataService}
use orchy.Metadata.{MetadataStorage, get_flow}

-- The interface MetadataStorage.
pub record MetadataStore (R : Type 0) : Type 0 where
  pub save_workflow_definition : Workflow → R → Result (Unit {0}) × R
  pub delete_workflow_definition : Text → R → Result (Unit {0}) × R
  pub get_workflow_definition : Text → R → Result Workflow × R
  pub save_action_definition : ActionDefinition → R → Result (Unit {0}) × R
  pub delete_action_definition : Text → R → Result (Unit {0}) × R
  pub get_action_definition : Text → R → Result ActionDefinition × R

module _ {R : Type 0} (store : MetadataStore R) where
  -- What the storage answers in a state.
  unfoldable pub reads : R → MetadataStorage
  reads s = record {
    get_workflow_definition = λ name. (store.get_workflow_definition name s).0;
    get_action_definition = λ name. (store.get_action_definition name s).0;
  }

  -- NewMetadataService, as the engine calls the service.
  unfoldable pub service_of : R → MetadataService
  service_of s = record {
    get_flow = get_flow (reads s);
    get_action_definition = λ name. (store.get_action_definition name s).0;
  }

  -- A workflow that is saved is read back under its name. The storage over Redis does this while no
  -- call fails and encoding/json reads what it wrote.
  pub record KeepsWorkflows : Type 0 where
    pub get_saved :
        (wf : Workflow) (s : R)
        → (store.save_workflow_definition wf s).0 ≡ ok tt
        → (store.get_workflow_definition wf.name (store.save_workflow_definition wf s).1).0 ≡ ok wf
