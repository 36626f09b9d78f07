-- ===== src/Model.antt =====
-- The data model: model/flow_context.go, model/flow.go, model/task.go, model/workflow.go, and the
-- errors that the packages build. A `map[string]any` is `Fields`; an empty interface is `Value`.
pub mod Value
use orchy.Base.{ℕ, ℤ, Text, Option, List, Bool, ◌≡◌, refl, ◌⊎◌, inl, inr}
use orchy.Base.Map.{Map}
use orchy.Model.Value.{Fields}

-- model.FlowState. A stored context may hold any other text.
pub data FlowState : Type 0 where
  running failed completed waiting_delay waiting_event paused : FlowState
  unknown : Text → FlowState

-- model.ActionType and action.ActionType.
pub data ActionType : Type 0 where
  system user : ActionType

-- model.ActionExecutionRequest.
pub record ActionExecutionRequest : Type 0 where
  pub workflow_name : Text
  pub flow_id : Text
  pub action_id : ℤ
  pub action_name : Text
  pub action_type : Option ActionType

-- model.FlowContext.
pub record FlowContext : Type 0 where
  pub id : Text
  pub current_action_ids : Map ℤ ℤ
  pub context_data : Fields
  pub state : FlowState
  pub event : Text
  pub executed_actions : Map ℤ Bool

-- model.FlowExecution: what the REST interface shows of a context.
pub record FlowExecution : Type 0 where
  pub id : Text
  pub running_actions : List ℤ
  pub execution_data : Fields
  pub state : Text
  pub event : Text
  pub executed_actions : List ℤ

-- model.RetryPolicy. A definition may hold any other text.
pub data RetryPolicy : Type 0 where
  fixed backoff : RetryPolicy
  other_policy : Text → RetryPolicy

-- model.ActionDefinition.
pub record ActionDefinition : Type 0 where
  pub name : Text
  pub retry_count : ℤ
  pub retry_after_seconds : ℤ
  pub retry_policy : RetryPolicy
  pub timeout_seconds : ℤ

-- `Next` of an action: nil, or a map whose values are slices that may be nil.
abbrev pub NextMap : Type 0
NextMap = Option (Map Text (Option (List ℤ)))

-- model.ActionDef.
pub record ActionDef : Type 0 where
  pub id : ℤ
  pub action_type : Text
  pub name : Text
  pub input_params : Fields
  pub next : NextMap
  pub expression : Text
  pub join : ℤ
  pub delay_seconds : ℤ
  pub event : Text
  pub timeout_seconds : ℤ

-- model.Workflow.
pub record Workflow : Type 0 where
  pub name : Text
  pub root_action : ℤ
  pub actions : List ActionDef
  pub on_failure : Text
  pub on_success : Text

-- model.WorkflowRunRequest and model.WorkflowEvent, of the REST interface.
pub record WorkflowRunRequest : Type 0 where
  pub name : Text
  pub input : Fields

pub record WorkflowEvent : Type 0 where
  pub name : Text
  pub flow_id : Text
  pub event : Text

-- The errors of the packages, one constructor for each message, with what the message names.
pub data Error : Type 0 where
  storage_layer client_error decode_failed : Error
  lookup_failed script_failed cannot_execute : Error
  flow_already_completed : Error
  action_already_executed : ℤ → Error
  event_mismatch : Text → Text → Error
  invalid_state_handler invalid_action_type : Text → Error
  invalid_next next_not_array duplicate_action no_root_action : ℤ → Error
  next_not_defined : ℤ → ℤ → Error
  no_implementation : Text → Error
  wrong_delay missing_default empty_expression invalid_expression : ℤ → Error
  missing_next missing_event : ℤ → Error
  action_not_registered : ℤ → Text → Error

-- Go's pair of a value and an error, of which the callers read one.
pub data Result {ℓ} (A : Type ℓ) : Type ℓ where
  ok : A → Result A
  err : Error → Result A

-- To split on a result and keep the equation.
pub Result-cases :
    {A : Type 0} (r : Result A) → ((e : Error) × (r ≡ err e)) ⊎ ((a : A) × (r ≡ ok a))
Result-cases (ok a) = inr (a, refl)
Result-cases (err e) = inl (e, refl)

infixl 10 ◌>>=◌ ◌>>◌
abbrev pub ◌>>=◌ {ℓ κ} : {A : Type ℓ} {B : Type κ} → Result A → (A → Result B) → Result B
err e >>= f = err e
ok a >>= f = f a

abbrev pub ◌>>◌ {ℓ} : {B : Type ℓ} → Result (Unit {0}) → Result B → Result B
m >> k = m >>= λ _. k
