-- ===== src/Tests/Delays.antt =====
-- The theorems on the system actions delay and wait.
use orchy.Base.{
  pos, int_eq, int_beq, Text, text_eq, text_beq, returned, some, lit, none, [], ◌∷◌, if◌then◌else◌,
  ◌≡◌, refl,
}
use orchy.Base.Map.{lookup}
use orchy.Model.{ok, system, running, waiting_delay, waiting_event}
use orchy.Model.Value.{end}
use orchy.Action.{Action, base, delay_action, wait_action, duration, text}
use orchy.Action
use orchy.Flow.{Flow}
use orchy.Shard.Container.{MetadataService, World}
use orchy.Shard.Storage.Reliable.{same}
use orchy.Shard.Engine.System.{as_duration, as_text, execute_system_action}
use orchy.Shard.Effect.Read.{IsCurrent}
use orchy.Shard.Effect.{after_change}
use orchy.Shard.Steps.Wait.{view-execute_system_action}
use orchy.Shard.Steps.Delay.{execute_system_action-delays}
use orchy.Tests.Memory.{Memory, memory, reliable_memory}
use orchy.Tests.Flows.{order, metadata, libs, context, world, wf, id, next_of_first, first-IsOpen}

-- Action 1 waits for a minute.
abbrev minute : Action
minute = delay_action (pos 60_000_000_000) (record {
  id = pos 1;
  action_type = system;
  name = lit "delay";
  input_params = end;
  next_map = next_of_first;
  params = (lit "delay", duration (pos 60_000_000_000)) ∷ [];
})

abbrev slow : Flow
slow = record order { actions = (pos 1, minute) ∷ [] }

abbrev slow_metadata : MetadataService
slow_metadata = record metadata { get_flow = λ wf' id'. some (ok slow) }

minute_known : lookup (pos 1) slow.actions ≡ some minute
unfolding lookup int_beq
minute_known = refl

minute_held : as_duration (lookup (lit "delay") (base minute).params) ≡ some (pos 60_000_000_000)
unfolding lookup text_beq
minute_held = refl

minute_ran : Action.execute libs minute (context running) ≡ returned (ok (lit "default", none))
unfolding Action.execute
minute_ran = refl

abbrev start : World Memory
start = world (context running)

fresh_start : IsCurrent wf id slow start
unfolding lookup
fresh_start = record { cached_flow = λ m h. cc }

execute_system_action-delays_example :
    (s' : Memory) × ((execute_system_action memory slow_metadata libs wf id (pos 1) start).1.storage
      ≡ (memory.delay wf id (lit "delay") (pos 1) (pos 60_000_000_000) s').1)
    × ((wf' id' : Text)
        → s'.contexts wf' id' ≡ (
            if same wf id wf' id'
            then some (record (context running) { state = waiting_delay })
            else start.storage.contexts wf' id'))
execute_system_action-delays_example =
    execute_system_action-delays memory reliable_memory slow_metadata wf id slow refl libs start
      (context running) (pos 1) (pos 60_000_000_000) minute (lit "default") none fresh_start refl
      first-IsOpen minute_known refl refl refl minute_held minute_ran

-- Action 1 awaits a payment, for an hour at most.
abbrev payment : Action
payment = wait_action (lit "payment") (pos 3_600_000_000_000) (record {
  id = pos 1;
  action_type = system;
  name = lit "wait";
  input_params = end;
  next_map = next_of_first;
  params =
      (lit "event", text (lit "payment")) ∷ (lit "timeout", duration (pos 3_600_000_000_000)) ∷ [];
})

abbrev paying : Flow
paying = record order { actions = (pos 1, payment) ∷ [] }

abbrev paying_metadata : MetadataService
paying_metadata = record metadata { get_flow = λ wf' id'. some (ok paying) }

payment_known : lookup (pos 1) paying.actions ≡ some payment
unfolding lookup int_beq
payment_known = refl

payment_limit :
    as_duration (lookup (lit "timeout") (base payment).params) ≡ some (pos 3_600_000_000_000)
unfolding lookup text_beq
payment_limit = refl

payment_event : as_text (lookup (lit "event") (base payment).params) ≡ some (lit "payment")
unfolding lookup text_beq
payment_event = refl

payment_ran : Action.execute libs payment (context running) ≡ returned (ok (lit "default", none))
unfolding Action.execute
payment_ran = refl

fresh_paying : IsCurrent wf id paying start
unfolding lookup
fresh_paying = record { cached_flow = λ m h. cc }

view-execute_system_action_example :
    (execute_system_action memory paying_metadata libs wf id (pos 1) start).1.storage.contexts wf id
    ≡ (if same wf id wf id
        then after_change paying waiting_event (lit "payment") (context running)
        else start.storage.contexts wf id)
view-execute_system_action_example =
    view-execute_system_action memory reliable_memory paying_metadata wf id paying refl libs start
      (context running) (pos 1) (pos 3_600_000_000_000) (lit "payment") payment (lit "default") none
      fresh_paying refl first-IsOpen payment_known refl refl refl payment_limit payment_event
      payment_ran wf id
