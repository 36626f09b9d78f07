-- ===== src/Metadata.antt =====
-- metadata/service.go: a workflow definition is built into a flow, and validated when it is created.
-- The metadata storage is a parameter: what it answers at the time of the call.
pub mod Walk
pub mod Valid
pub mod Sound
pub mod Graph
pub mod Store
pub mod Terminals
pub mod Params
use orchy.Base.{
  ℕ, suc, ℤ, int_eq, Text, lit, Bool, if◌then◌else◌, Option, none, some, List, [], ◌∷◌, length,
}
use orchy.Base.Map.{Map, lookup, insert}
use orchy.Base.Strconv.{equal_fold}
use orchy.Model.{
  Error, Result, ok, err, ◌>>=◌, ◌>>◌, ActionType, system, user, ActionDef, ActionDefinition,
  Workflow, NextMap, invalid_next, next_not_array, next_not_defined, duplicate_action,
  no_root_action, action_not_registered,
}
use orchy.Action.{
  Action, BaseAction, base, base_action, user_action, switch_action, js_action, json_map_action,
  new_base_action, new_delay_action, new_wait_action, to_action_type, validate_action_type,
  validate, Libs,
}
use orchy.Flow.{Flow, Statehandler, noop_handler, is_empty, validate_state_handler}
use orchy.Metadata.Walk.{WalkResult, done, crashed, out_of_fuel, walk}

-- The reads of the interface MetadataStorage.
pub record MetadataStorage : Type 0 where
  pub get_workflow_definition : Text → Result Workflow
  pub get_action_definition : Text → Result ActionDefinition

-- The implementation of a system action, by its name.
abbrev system_action : ActionDef → BaseAction → Action
system_action d b =
    if equal_fold d.name (lit "switch")
    then switch_action d.expression b
    else if equal_fold d.name (lit "delay")
    then new_delay_action d.delay_seconds b
    else if equal_fold d.name (lit "wait")
    then new_wait_action d.event d.timeout_seconds b
    else if equal_fold d.name (lit "javascript")
    then js_action d.expression b
    else if equal_fold d.name (lit "jsonmapper")
    then json_map_action b
    else base_action b

abbrev action_of : ActionType → ActionDef → BaseAction → Action
action_of system d b = system_action d b
action_of user d b = user_action b

-- The body of the loop of GetFlow, and of that of ValidateFlow.
unfoldable pub build_action : ActionDef → Action
unfolding to_action_type new_base_action new_delay_action new_wait_action equal_fold
build_action d =
    let action_type = to_action_type d.action_type in
    action_of action_type d (new_base_action d.id action_type d.name d.input_params d.next)

-- The loop: actionMap[actionDef.Id] = flAct.
unfoldable pub build_actions : List ActionDef → Map ℤ Action → Map ℤ Action
unfolding insert
build_actions [] m = m
build_actions (d ∷ defs) m = build_actions defs (insert d.id (build_action d) m)

abbrev handler_or_noop : Text → Statehandler
handler_or_noop st = if is_empty st then noop_handler else st

abbrev with_terminals : Workflow → Text → Map ℤ Action → WalkResult → Option (Result Flow)
with_terminals wf id actions (done terminals) = some (
    ok (record {
      id = id;
      root_action = wf.root_action;
      actions = actions;
      failure_handler = handler_or_noop wf.on_failure;
      success_handler = handler_or_noop wf.on_success;
      terminal_actions = terminals;
    }))
with_terminals wf id actions crashed = none
with_terminals wf id actions out_of_fuel = none

-- The flow of a definition; `none` is a crash: a panic, or a recursion of `walk` with no end.
unfoldable pub flow_of_workflow : Workflow → Text → Option (Result Flow)
unfolding build_actions walk
flow_of_workflow wf id =
    let actions = build_actions wf.actions [] in
    with_terminals wf id actions (walk actions (suc (length wf.actions)) wf.root_action)

-- GetFlow
unfoldable pub get_flow : MetadataStorage → Text → Text → Option (Result Flow)
unfolding flow_of_workflow
get_flow storage name id = elim (storage.get_workflow_definition name) [
  | err e ↦ some (err e)
  | ok wf ↦ flow_of_workflow wf id
]

-- The set allActions of ValidateFlow.
unfoldable pub all_actions : List ActionDef → Map ℤ Bool → Map ℤ Bool
unfolding insert
all_actions [] m = m
all_actions (d ∷ defs) m = all_actions defs (insert d.id Bool.true m)

-- The innermost loop: every next action is defined.
unfoldable pub check_targets : ℤ → Map ℤ Bool → List ℤ → Result (Unit {0})
unfolding lookup
check_targets id all [] = ok tt
check_targets id all (act ∷ acts) = elim (lookup act all) [
  | none ↦ err (next_not_defined id act)
  | some b ↦ check_targets id all acts
]

unfoldable pub check_groups : ℤ → Map ℤ Bool → Map Text (Option (List ℤ)) → Result (Unit {0})
unfolding check_targets
check_groups id all [] = ok tt
check_groups id all ((event, none) ∷ groups) = err (next_not_array id)
check_groups id all ((event, some v) ∷ groups) =
    check_targets id all v >> check_groups id all groups

unfoldable pub check_next : ℤ → Map ℤ Bool → NextMap → Result (Unit {0})
unfolding check_groups
check_next id all none = ok tt
check_next id all (some []) = err (invalid_next id)
check_next id all (some (g ∷ groups)) = check_groups id all (g ∷ groups)

-- The second loop of ValidateFlow; the result is validActionId.
unfoldable pub check_actions : Map ℤ Bool → List ActionDef → Map ℤ Text → Result (Map ℤ Text)
unfolding check_next lookup insert validate_action_type
check_actions all [] valid = ok valid
check_actions all (d ∷ defs) valid = check_next d.id all d.next >> elim (lookup d.id valid) [
  | some t ↦ err (duplicate_action d.id)
  | none ↦ validate_action_type d.action_type >> check_actions all defs (insert d.id (lit "") valid)
]

module _ (lib : Libs) (storage : MetadataStorage) where
  abbrev pub check_registered : Action → ActionType → Result (Unit {0})
  check_registered act system = ok tt
  check_registered act user = elim (storage.get_action_definition (base act).name) [
    | err e ↦ err (action_not_registered (base act).id (base act).name)
    | ok definition ↦ ok tt
  ]

  -- The last loop of ValidateFlow.
  unfoldable pub check_built : Map ℤ Action → Result (Unit {0})
  unfolding validate
  check_built [] = ok tt
  check_built ((id, act) ∷ m) =
      validate lib act >> (check_registered act (base act).action_type >> check_built m)

  -- ValidateFlow
  unfoldable pub validate_flow : Workflow → Result (Unit {0})
  unfolding validate_state_handler check_actions all_actions check_built build_actions
  validate_flow wf = do
    validate_state_handler wf.on_failure
    validate_state_handler wf.on_success
    valid ← check_actions (all_actions wf.actions []) wf.actions []
    elim (lookup wf.root_action valid) [
      | none ↦ err (no_root_action wf.root_action)
      | some t ↦ check_built (build_actions wf.actions [])
    ]
