-- ===== src/Shard/Effect.antt =====
-- What the engine makes of the stored context of a flow, written as functions of that context, for
-- a storage whose calls do not fail. The modules below prove it of shard/engine.go.
pub mod Read
pub mod Change
pub mod Done
pub mod Dispatch
pub mod Retry
pub mod Event
pub mod Start
pub mod Unmatched
use orchy.Base.{
  ℤ, int_eq, Text, [], Bool, true, false, not, ◌&&◌, ◌||◌, if◌then◌else◌, Option, none, some, List,
}
use orchy.Base.Map.{lookup}
use orchy.Model.{FlowContext, FlowState, running, failed, completed, ActionExecutionRequest}
use orchy.Model.Value.{Fields}
use orchy.Action.{Action, base}
use orchy.Flow.{Flow, Statehandler, is_empty}
use orchy.Shard.Storage.{get_handler, Handler, delete, noop}
use orchy.Shard.Machine.{is_terminal, is_paused, move_context}
use orchy.Shard.Engine.{requests}

-- What a state handler leaves of a context.
abbrev pub settle : Handler → FlowContext → Option FlowContext
settle delete c = none
settle noop c = some c

abbrev pub handled : Flow → FlowState → FlowContext → Option FlowContext
handled fl failed c = settle (get_handler fl.failure_handler) c
handled fl completed c = settle (get_handler fl.success_handler) c
handled fl _ c = some c

-- A change of state: an empty event leaves the old one.
abbrev pub after_change : Flow → FlowState → Text → FlowContext → Option FlowContext
after_change fl s event c =
    handled fl s (record c { state = s; event = if is_empty event then c.event else event })

abbrev pub is_some : {A : Type 0} → Option A → Bool
is_some none = false
is_some (some a) = true

-- Does the engine leave a result of the action aside?
abbrev pub is_ignored : FlowContext → ℤ → Bool → Bool
is_ignored c action_id resume =
    is_terminal c.state
    || (is_some (lookup action_id c.executed_actions) || (not resume && is_paused c.state))

abbrev pub after_dispatch :
    FlowContext → FlowContext → Option (List ActionExecutionRequest) → Option FlowContext
after_dispatch c c' none = some c
after_dispatch c c' (some actions) = some (record c' { state = running })

-- After MoveForward, by whether the flow is complete; with a next action that is not defined the
-- engine panics before it saves.
abbrev pub after_move : Flow → FlowContext → FlowContext × Bool × List ℤ → Option FlowContext
after_move fl c (c', true, ids) = after_change fl completed [] c'
after_move fl c (c', false, ids) = after_dispatch c c' (requests fl.actions ids)

abbrev pub after_action :
    Flow → ℤ → Text → Option Fields → FlowContext → Option Action → Option FlowContext
after_action fl action_id event data_map c none = some c
after_action fl action_id event data_map c (some act) =
    after_move fl c
      (move_context fl.terminal_actions (base act).next_map action_id event data_map c)

-- The context after the result of an action.
abbrev pub after_done : Flow → ℤ → Text → Option Fields → Bool → FlowContext → Option FlowContext
after_done fl action_id event data_map resume c =
    if is_ignored c action_id resume
    then some c
    else after_action fl action_id event data_map c (lookup action_id fl.actions)
