-- ===== src/Shard/Container.antt =====
-- The type FlowStateMachineContainer of shard/flow.go, and the state that the engine works on.
-- A machine is a shared pointer: after a change it is written back under its key.
pub mod Reads
use orchy.Base.{
  ℤ, pos, int_eq, Text, text_eq, lit, Option, none, some, List, [], ◌∷◌, ◌++◌, Exec, pure, panic,
  ◌>>=◌, ◌>>◌, returned,
}
use orchy.Base.Map.{Map, lookup, insert, delete}
use orchy.Model.{Result, ok, err, FlowContext, ActionDefinition, running, flow_already_completed}
use orchy.Model.Value.{Fields, object, field, end}
use orchy.Flow.{Flow}
use orchy.Shard.Storage.{Storage}
use orchy.Shard.Machine.{FlowStateMachine}

-- The interface MetadataService, as the engine calls it. `none` is a crash of GetFlow.
pub record MetadataService : Type 0 where
  pub get_flow : Text → Text → Option (Result Flow)
  pub get_action_definition : Text → Result ActionDefinition

-- analytics.RecordActionSuccess and RecordActionFailure.
pub data ActionRecord : Type 0 where
  success : Text → Text → Text → ℤ → Option Fields → ActionRecord
  failure : Text → Text → Text → ℤ → Text → ActionRecord

-- The storage, the map stateMachines, and the calls to the data collector, the latest first.
pub record World (S : Type 0) : Type 0 where
  pub storage : S
  pub machines : Map Text FlowStateMachine
  pub records : List ActionRecord

-- fmt.Sprintf("%s:%s", wf, flowId)
unfoldable pub machine_key : Text → Text → Text
machine_key wf id = wf ++ (lit ":" ++ id)

module _ {S : Type 0} where
  -- A call of the storage.
  unfoldable pub call : {A : Type 0} → (S → Result A × S) → Exec (World S) (Result A)
  call f w = let (r, s) = f w.storage in (returned r, record w { storage = s })

  unfoldable pub record_action : ActionRecord → Exec (World S) (Unit {0})
  record_action r w = (returned tt, record w { records = r ∷ w.records })

  -- Store, and a change of a machine that the map holds.
  unfoldable pub store : Text → Text → FlowStateMachine → Exec (World S) (Unit {0})
  store wf id m w = (returned tt, record w { machines = insert (machine_key wf id) m w.machines })

  -- Delete
  unfoldable pub forget : Text → Text → Exec (World S) (Unit {0})
  forget wf id w = (returned tt, record w { machines = delete (machine_key wf id) w.machines })

  unfoldable pub cached : Text → Text → Exec (World S) (Option FlowStateMachine)
  cached wf id w = (returned (lookup (machine_key wf id) w.machines), w)

-- The context that Init makes.
abbrev pub initial_context : Flow → Text → Fields → FlowContext
initial_context fl id input = record {
  id = id;
  state = running;
  context_data = field (lit "input") (object input) end;
  executed_actions = [];
  current_action_ids = (fl.root_action, pos 1) ∷ [];
  event = [];
}

module _ {S : Type 0} (st : Storage S) (md : MetadataService) where
  abbrev new_machine :
      Text → Text → FlowContext → Option (Result Flow) → Exec (World S) (Result FlowStateMachine)
  new_machine wf id ctx none = panic
  new_machine wf id ctx (some (err e)) = pure (err e)
  new_machine wf id ctx (some (ok fl)) = do
    let m : FlowStateMachine = record { workflow = wf; id = id; context = ctx; flow = fl }
    store wf id m
    pure (ok m)

  abbrev refresh :
      Text
      → Text
      → Option FlowStateMachine
      → Result FlowContext
      → Exec (World S) (Result FlowStateMachine)
  refresh wf id sm (err e) = pure (err flow_already_completed)
  refresh wf id none (ok ctx) = new_machine wf id ctx (md.get_flow wf id)
  refresh wf id (some m) (ok ctx) = do
    let fresh = record m { context = ctx }
    store wf id fresh
    pure (ok fresh)

  -- Get: the stored context always replaces the machine's; the flow stays the cached one.
  unfoldable pub get : Text → Text → Exec (World S) (Result FlowStateMachine)
  get wf id = do sm ← cached wf id; ctx ← call (st.get_flow_context wf id); refresh wf id sm ctx

  -- Init
  unfoldable pub init : Text → Text → Fields → Exec (World S) (Result FlowStateMachine)
  init wf id input = elim (md.get_flow wf id) [
    | none ↦ panic
    | some (err e) ↦ pure (err e)
    | some (ok fl) ↦ new_machine wf id (initial_context fl id input) (some (ok fl))
  ]
