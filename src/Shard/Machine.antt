-- ===== src/Shard/Machine.antt =====
-- The type FlowStateMachine of shard/flow.go.
pub mod Moves
pub mod Complete
use orchy.Base.{
  ℕ, ℤ, pos, int_eq, Text, text_eq, lit, Bool, true, false, ◌||◌, if◌then◌else◌, Option, none, some,
  List, [], ◌∷◌, Outcome, returned, panicked,
}
use orchy.Base.Map.{Map, lookup, insert, delete, keys}
use orchy.Base.Strconv.{itoa}
use orchy.Util.Slice.{contains_all}
use orchy.Model.{
  Result, ok, err, FlowContext, FlowState, running, failed, completed, waiting_delay, waiting_event,
  paused, unknown, flow_already_completed, action_already_executed, NextMap,
}
use orchy.Model.Value.{Fields, object, set_field, end, field}
use orchy.Action.{Action, base, branches}
use orchy.Flow.{Flow}

-- The mutex is left out: an operation on the machine is one step.
pub record FlowStateMachine : Type 0 where
  pub workflow : Text
  pub id : Text
  pub context : FlowContext
  pub flow : Flow

abbrev pub is_terminal : FlowState → Bool
is_terminal completed = true
is_terminal failed = true
is_terminal _ = false

abbrev pub is_paused : FlowState → Bool
is_paused paused = true
is_paused _ = false

-- Validate
unfoldable pub validate : FlowStateMachine → ℤ → Result (Unit {0})
validate m action_id =
    if is_terminal m.context.state
    then err flow_already_completed
    else elim (lookup action_id m.context.executed_actions) [
      | some b ↦ err (action_already_executed action_id)
      | none ↦ ok tt
    ]

-- The loop of isComplete.
unfoldable pub some_contained : List ℤ → List (List ℤ) → Bool
some_contained executed [] = false
some_contained executed (terminals ∷ rest) =
    contains_all executed terminals || some_contained executed rest

-- isComplete, on the flow's terminal actions and the context's executed actions.
unfoldable pub is_complete : List (List ℤ) → Map ℤ Bool → Bool
is_complete terminal_actions executed = some_contained (keys executed) terminal_actions

-- data[fmt.Sprintf("%d", actionId)] = {"output": dataMap}, unless the map is nil.
unfoldable pub record_output : ℤ → Option Fields → Fields → Fields
record_output action_id none context_data = context_data
record_output action_id (some output) context_data =
    set_field (itoa action_id) (object (field (lit "output") (object output) end)) context_data

-- nextActionMap[event]: nil where the key is missing.
abbrev or_nil : Option (Option (List ℤ)) → List ℤ
or_nil (some (some ids)) = ids
or_nil _ = []

unfoldable pub next_actions : NextMap → Text → List ℤ
next_actions next event = or_nil (lookup event (branches next))

-- CurrentActionIds[actionId] = 1, for each of the list.
unfoldable pub add_current : List ℤ → Map ℤ ℤ → Map ℤ ℤ
add_current [] current = current
add_current (action_id ∷ rest) current = add_current rest (insert action_id (pos 1) current)

-- What MoveForward makes of the context when the action has the next map `next`.
unfoldable pub move_context :
    List (List ℤ) → NextMap → ℤ → Text → Option Fields → FlowContext → FlowContext × Bool × List ℤ
move_context terminal_actions next action_id event data_map ctx =
    let executed = insert action_id true ctx.executed_actions in
    let current = delete action_id ctx.current_action_ids in
    let stored = record_output action_id data_map ctx.context_data in
    let ids = next_actions next event in
    if is_complete terminal_actions executed
    then (
      record ctx {
        executed_actions = executed;
        current_action_ids = current;
        state = completed;
        context_data = stored;
      },
      true,
      [],
    )
    else (
      record ctx {
        executed_actions = executed;
        current_action_ids = add_current ids current;
        context_data = stored;
      },
      false,
      ids,
    )

-- MoveForward. A missing action is a nil interface, on which GetNext panics.
unfoldable pub move_forward :
    FlowStateMachine → ℤ → Text → Option Fields → Outcome (FlowStateMachine × Bool × List ℤ)
move_forward m action_id event data_map = elim (lookup action_id m.flow.actions) [
  | none ↦ panicked
  | some act ↦
      let (ctx, complete, ids) =
        move_context m.flow.terminal_actions (base act).next_map action_id event data_map
          m.context in
      returned (record m { context = ctx }, complete, ids)
]

-- ChangeState
unfoldable pub change_state : FlowStateMachine → FlowState → FlowStateMachine
change_state m state = record m { context = record m.context { state = state } }

-- SaveEvent
unfoldable pub save_event : FlowStateMachine → Text → FlowStateMachine
save_event m event = record m { context = record m.context { event = event } }
