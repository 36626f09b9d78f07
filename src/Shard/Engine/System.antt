-- ===== src/Shard/Engine/System.antt =====
-- ExecuteSystemAction of shard/engine.go.
use orchy.Base.{
  ℤ, pos, int_eq, Text, text_eq, lit, if◌then◌else◌, Option, none, some, ◌==◌, Outcome, returned,
  panicked, pure, panic, ◌>>◌,
}
use orchy.Base.Map.{lookup}
use orchy.Model.{Result, ok, err, FlowContext, ActionType, system, user}
use orchy.Model.Value.{Fields}
use orchy.Action.{Action, BaseAction, base, Param, duration, text, Libs, seconds}
use orchy.Shard.Storage.{Storage}
use orchy.Shard.Container.{MetadataService, success, failure, record_action}
use orchy.Shard.Engine.{
  Step, with_valid, execute_action, mark_failed, mark_waiting_delay, mark_waiting_event,
}
use orchy.Shard.Engine.Delays.{delay_action}
use orchy.Action

-- `.(time.Duration)` and `.(string)` on a parameter: `none` is a panic.
abbrev pub as_duration : Option Param → Option ℤ
as_duration (some (duration d)) = some d
as_duration _ = none

abbrev pub as_text : Option Param → Option Text
as_text (some (text t)) = some t
as_text _ = none

module _ {S : Type 0} (st : Storage S) (md : MetadataService) (lib : Libs) where
  abbrev pub on_duration : Option ℤ → (ℤ → Step st md) → Step st md
  on_duration none f = panic
  on_duration (some d) f = f d

  abbrev pub on_text : Option Text → (Text → Step st md) → Step st md
  on_text none f = panic
  on_text (some t) f = f t

  -- The case "delay".
  unfoldable pub run_delay : Text → Text → BaseAction → Step st md
  run_delay wf id b = do
    mark_waiting_delay st md wf id
    on_duration (as_duration (lookup (lit "delay") b.params))
        λ d. delay_action st md wf id b.name b.id d

  -- The case "wait".
  unfoldable pub run_wait : Text → Text → BaseAction → Step st md
  run_wait wf id b = on_duration (as_duration (lookup (lit "timeout") b.params)) λ timeout.
      on_text (as_text (lookup (lit "event") b.params)) λ event. do
        if timeout == pos 0 then pure tt else delay_action st md wf id b.name b.id timeout
        mark_waiting_event st md wf id event

  -- The switch on the name of a system action.
  unfoldable pub run_system : Text → Text → ℤ → BaseAction → Text → Option Fields → Step st md
  run_system wf id action_id b event data_map =
      if b.name == lit "delay"
      then run_delay wf id b
      else if b.name == lit "wait"
      then run_wait wf id b
      else execute_action st md wf id event action_id data_map

  -- The case of a user action logs an error.
  abbrev pub by_type : ActionType → Text → Text → ℤ → BaseAction → Text → Option Fields → Step st md
  by_type user wf id action_id b event data_map = pure tt
  by_type system wf id action_id b event data_map = do
    run_system wf id action_id b event data_map
    record_action (success wf id b.name action_id data_map)

  abbrev pub executed :
      Text → Text → ℤ → BaseAction → Outcome (Result (Text × Option Fields)) → Step st md
  executed wf id action_id b panicked = panic
  executed wf id action_id b (returned (err e)) = do
    record_action (failure wf id b.name action_id (lit "action failed"))
    mark_failed st md wf id
  executed wf id action_id b (returned (ok (event, data_map))) =
      by_type b.action_type wf id action_id b event data_map

  abbrev pub run_action : Text → Text → ℤ → FlowContext → Option Action → Step st md
  run_action wf id action_id ctx none = panic
  run_action wf id action_id ctx (some act) =
      executed wf id action_id (base act) (Action.execute lib act ctx)

  -- ExecuteSystemAction
  unfoldable pub execute_system_action : Text → Text → ℤ → Step st md
  execute_system_action wf id action_id =
      with_valid st md wf id action_id
        λ m. run_action wf id action_id m.context (lookup action_id m.flow.actions)
