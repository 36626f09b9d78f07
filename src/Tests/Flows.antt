-- ===== src/Tests/Flows.antt =====
-- A workflow of two actions: action 1, which a worker executes, and action 2 after it.
use orchy.Base.{ℤ, pos, Text, lit, true, false, none, some, [], ◌∷◌, refl}
use orchy.Base.Map.{Map, lookup}
use orchy.Shard.Effect.Read.{IsCurrent}
use orchy.Shard.Effect.Retry.{IsOpen}
use orchy.Model.{ok, user, FlowContext, FlowState, running, ActionDefinition, fixed, NextMap}
use orchy.Model.Value.{end, null}
use orchy.Action.{Action, user_action, Libs}
use orchy.Flow.{Flow, delete_handler, noop_handler}
use orchy.Shard.Container.{MetadataService, World}
use orchy.Tests.Memory.{Memory}

abbrev pub next_of_first : NextMap
next_of_first = some ((lit "default", some (pos 2 ∷ [])) ∷ [])

abbrev pub first : Action
first = user_action (record {
  id = pos 1;
  action_type = user;
  name = lit "charge";
  input_params = end;
  next_map = next_of_first;
  params = [];
})

abbrev pub second : Action
second = user_action (record {
  id = pos 2;
  action_type = user;
  name = lit "ship";
  input_params = end;
  next_map = none;
  params = [];
})

abbrev pub actions : Map ℤ Action
actions = (pos 1, first) ∷ (pos 2, second) ∷ []

abbrev pub order : Flow
order = record {
  id = lit "f1";
  root_action = pos 1;
  actions = actions;
  failure_handler = noop_handler;
  success_handler = delete_handler;
  terminal_actions = (pos 2 ∷ []) ∷ [];
}

abbrev pub definition : ActionDefinition
definition = record {
  name = lit "charge";
  retry_count = pos 3;
  retry_after_seconds = pos 5;
  retry_policy = fixed;
  timeout_seconds = pos 10;
}

abbrev pub metadata : MetadataService
metadata = record {
  get_flow = λ wf id. some (ok order);
  get_action_definition = λ name. ok definition;
}

abbrev pub libs : Libs
libs = record {
  json_path_lookup = λ m p. (null, none);
  json_path_compiles = λ p. true;
  marshal = λ v. ok [];
  unmarshal = λ s. none;
  run_string = λ before s. ok null;
}

-- A context in which action 1 is current.
abbrev pub context : FlowState → FlowContext
context s = record {
  id = lit "f1";
  current_action_ids = (pos 1, pos 1) ∷ [];
  context_data = end;
  state = s;
  event = lit "paid";
  executed_actions = [];
}

-- A world in which the context of the flow is stored, and no machine is cached.
abbrev pub world : FlowContext → World Memory
world c = record {
  storage = record { contexts = λ wf id. some c; queue = λ wf id a. false };
  machines = [];
  records = [];
}

-- A context in which action 1 is executed and action 2 is current.
abbrev pub later : FlowContext
later = record (context running) {
  current_action_ids = (pos 2, pos 1) ∷ [];
  executed_actions = (pos 1, true) ∷ [];
}

abbrev pub wf : Text
wf = lit "order"

abbrev pub id : Text
id = lit "f1"

pub fresh_world : (c : FlowContext) → IsCurrent wf id order (world c)
unfolding lookup
fresh_world c = record { cached_flow = λ m h. cc }

pub first-IsOpen : IsOpen (context running) (pos 1)
unfolding lookup
first-IsOpen = record { live = refl; fresh = refl }
