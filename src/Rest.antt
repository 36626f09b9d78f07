-- ===== src/Rest.antt =====
-- The package rest: the responses, the handlers and the routes; and what HandleGetFlowExecution of
-- rest/handler_workflow.go shows of a context.
pub mod Response
pub mod Definitions
pub mod Flows
pub mod Routes
pub mod Saved
pub mod Answers
pub mod Commands
pub mod Replies
pub mod Statuses
use orchy.Base.{Text, lit}
use orchy.Base.Map.{keys}
use orchy.Model.{
  FlowContext, FlowExecution, FlowState, running, failed, completed, waiting_delay, waiting_event,
  paused, unknown,
}

-- The switch on the state.
unfoldable pub state_name : FlowState → Text
state_name running = lit "RUNNING"
state_name completed = lit "COMPLETED"
state_name failed = lit "FAILED"
state_name waiting_delay = lit "DELAY WAITING"
state_name waiting_event = lit "EVENT WAITING"
state_name paused = lit "PAUSED"
state_name (unknown s) = lit "UNDEFINED"

-- The body of the response to a context that was found.
unfoldable pub flow_execution : FlowContext → FlowExecution
flow_execution ctx = record {
  id = ctx.id;
  state = state_name ctx.state;
  running_actions = keys ctx.current_action_ids;
  executed_actions = keys ctx.executed_actions;
  event = ctx.event;
  execution_data = ctx.context_data;
}
