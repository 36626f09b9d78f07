-- ===== src/Shard/Storage.antt =====
-- The interface Storage of shard/shard.go over the state S of what implements it, and the state
-- handlers of shard/state_change_handlers.go.
pub mod Reliable
use orchy.Base.{ℤ, Text, lit, Bool, if◌then◌else◌, List, ◌==◌, text_eq, Exec}
use orchy.Model.{Result, ok, FlowContext, ActionExecutionRequest}
use orchy.Flow.{Statehandler, delete_handler, noop_handler}

-- A call takes the state to its result and the state that it leaves; a poll may panic.
-- Delays are in nanoseconds.
pub record Storage (S : Type 0) : Type 0 where
  pub save_flow_context : Text → Text → FlowContext → S → Result (Unit {0}) × S
  pub get_flow_context : Text → Text → S → Result FlowContext × S
  pub delete_flow_context : Text → Text → S → Result (Unit {0}) × S
  pub save_flow_context_and_dispatch_action :
      Text → Text → FlowContext → List ActionExecutionRequest → S → Result (Unit {0}) × S
  pub poll_action : Text → ℤ → Exec S (Result (List ActionExecutionRequest))
  pub ack : Text → List ActionExecutionRequest → S → Result (Unit {0}) × S
  pub retry : Text → Text → Text → ℤ → ℤ → S → Result (Unit {0}) × S
  pub poll_retry : Exec S (Result (List ActionExecutionRequest))
  pub delay : Text → Text → Text → ℤ → ℤ → S → Result (Unit {0}) × S
  pub poll_delay : Exec S (Result (List ActionExecutionRequest))
  pub timeout : Text → Text → Text → ℤ → ℤ → S → Result (Unit {0}) × S
  pub poll_timeout : Exec S (Result (List ActionExecutionRequest))

-- The values of the map `handlers`.
pub data Handler : Type 0 where
  delete noop : Handler

-- GetHandler: what is not a key of the map has the handler noop.
unfoldable pub get_handler : Statehandler → Handler
get_handler st = if st == delete_handler then delete else noop

-- The methods delete and noop.
unfoldable pub run_handler :
    {S : Type 0} → Storage S → Handler → Text → Text → S → Result (Unit {0}) × S
run_handler st delete wf id s = st.delete_flow_context wf id s
run_handler st noop wf id s = (ok tt, s)
