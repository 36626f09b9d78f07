-- ===== src/Tests/Runs.antt =====
-- The theorems on sequences of requests.
use orchy.Base.{
  ℤ, inl, inr, text_beq, int64, ◌+ℤ◌, contains, pos, int_eq, int_beq, int_beq_iff, text_eq, lit,
  true, false, none, some, List, [], ◌∷◌, ◌≡◌, refl, arith,
}
use orchy.Base.Map.{lookup, insert}
use orchy.Model.{failed, FlowContext, running, paused}
use orchy.Shard.Container.{World, machine_key, get, cached, call, store, forget}
use orchy.Shard.Machine.{validate, change_state}
use orchy.Shard.Engine.{
  requests, save_context_and_dispatch_action, mark_paused, change_state_with_event,
}
use orchy.Shard.Engine.Delays.{execute_retry}
use orchy.Shard.Storage.Reliable.{same}
use orchy.Shard.Requests.{action_done, action_failed, retry_due, serve}
use orchy.Shard.Steps.{Moves}
use orchy.Shard.Steps.Serve.{Event, requested, pause_asked, restarted, happen, run, run-Moves}
use orchy.Shard.Steps.Invariant.{IsWellFormed, run-IsWellFormed}
use orchy.Shard.Steps.Keeps.{Stored}
use orchy.Base.Strconv.{itoa}
use orchy.Base.Strconv.Decimal.{IsInt64, pos_lt}
use orchy.Model.Value.{Fields, field, string, get_field}
use orchy.Shard.Steps.Settled.{settled_forever}
use orchy.Shard.Steps.Outputs.{output_forever}
use orchy.Tests.Graphs.{two_actions}
use orchy.Action.{Action}
use orchy.Shard.Steps.Forever.{executed_forever}
use orchy.Tests.Memory.{Memory, memory, reliable_memory}
use orchy.Tests.Flows.{metadata, libs, order, first, context, world, later, wf, id, fresh_world}

-- A retry of action 1 is due, its result comes, the flow is paused, and the process is restarted.
abbrev events : List Event
events =
    requested (retry_due (pos 1))
    ∷ requested (action_done (lit "default") (pos 1) none)
    ∷ pause_asked
    ∷ restarted
    ∷ []

abbrev end : World Memory
end = run memory metadata libs wf id events (world (context running))

other_flow : same wf id wf (lit "f2") ≡ false
unfolding text_beq
other_flow = refl

run-Moves_example :
    Moves order (some (context running)) (end.storage.contexts wf id)
    × (end.storage.contexts wf (lit "f2") ≡ some (context running))
run-Moves_example =
    run-Moves memory reliable_memory metadata wf id order refl libs events (world (context running))
      wf (lit "f2") (fresh_world (context running)) other_flow

first-IsWellFormed : IsWellFormed order (context running)
unfolding lookup
first-IsWellFormed = record {
  current_defined = λ k n h. (first, ground (arith, int_beq_iff (pos 1) k));
  completed_ended = λ h. cc;
}

run-IsWellFormed_example : Stored (IsWellFormed order) (end.storage.contexts wf id)
run-IsWellFormed_example =
    run-IsWellFormed memory reliable_memory metadata wf id order refl libs events
      (world (context running)) (fresh_world (context running)) first-IsWellFormed

-- Action 1 is executed, and the flow is paused in the end.
abbrev more_events : List Event
more_events = requested (retry_due (pos 2)) ∷ pause_asked ∷ restarted ∷ []

abbrev later_end : World Memory
later_end = run memory metadata libs wf id more_events (world later)

abbrev last : FlowContext
last = record later { current_action_ids = (pos 2, pos 2) ∷ []; state = paused }

first_executed : lookup (pos 1) later.executed_actions ≡ some true
unfolding lookup int_beq
first_executed = refl

later_last : later_end.storage.contexts wf id ≡ some last
unfolding run happen serve mark_paused change_state_with_event get cached call execute_retry lookup
    store validate int_beq save_context_and_dispatch_action requests text_beq insert forget
    change_state int64 ◌+ℤ◌ contains machine_key
later_last = refl

executed_forever_example :
    (lookup (pos 1) last.executed_actions ≡ some true)
    × ((serve memory metadata libs wf id (action_failed (lit "charge") (pos 1)) later_end).1.storage
        ≡ later_end.storage)
    × ((serve memory metadata libs wf id (action_failed (lit "charge") (pos 1)) later_end).1.records
        ≡ later_end.records)
executed_forever_example =
    executed_forever memory reliable_memory metadata wf id order refl libs more_events (world later)
      later last (pos 1) (action_failed (lit "charge") (pos 1)) (fresh_world later) refl
      first_executed later_last refl

abbrev settled_events : List Event
settled_events =
    requested (retry_due (pos 1))
    ∷ restarted
    ∷ requested (action_done (lit "default") (pos 1) none)
    ∷ []

-- A flow that failed, and whose context is kept.
settled_forever_example :
    ((run memory metadata libs wf id settled_events (world (context failed))).storage
      ≡ (world (context failed)).storage)
    × ((run memory metadata libs wf id settled_events (world (context failed))).records
        ≡ (world (context failed)).records)
settled_forever_example =
    settled_forever memory reliable_memory metadata wf id libs settled_events
      (world (context failed)) (context failed) (tt, (tt, (tt, tt))) refl refl

abbrev with_output : FlowContext → FlowContext
with_output c = record c { context_data = field (lit "1") (string (lit "paid")) Fields.end }

small_ids : (a : ℤ) (act : Action) → lookup a order.actions ≡ some act → IsInt64 a
small_ids a act h = elim (two_actions a act h) [
  | inl (e, e') ↦ rw e (pos_lt (omega arith))
  | inr (e, e') ↦ rw e (pos_lt (omega arith))
]

output_last :
    (run memory metadata libs wf id more_events (world (with_output later))).storage.contexts wf id
    ≡ some (with_output last)
unfolding run happen serve mark_paused change_state_with_event get cached call execute_retry lookup
    store validate int_beq save_context_and_dispatch_action requests text_beq insert forget
    change_state int64 ◌+ℤ◌ contains machine_key
output_last = refl

output_forever_example :
    get_field (itoa (pos 1)) (with_output last).context_data
    ≡ get_field (itoa (pos 1)) (with_output later).context_data
output_forever_example =
    output_forever memory reliable_memory metadata wf id order refl libs more_events
      (world (with_output later)) (with_output later) (with_output last) (pos 1) small_ids
      (pos_lt (omega arith)) (fresh_world (with_output later)) refl first_executed output_last
