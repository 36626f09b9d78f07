-- ===== src/Tests/Retries.antt =====
-- The theorems on failed actions and on the start of a flow.
use orchy.Base.{
  pos, int_eq, int_beq, ltb_ℤ, text_eq, lit, true, false, none, some, List, [], ◌∷◌, returned, ◌≡◌,
  refl, arith, if◌then◌else◌,
}
use orchy.Base.Map.{lookup}
use orchy.Model.{ok, FlowContext, running, failed}
use orchy.Model.Value.{end}
use orchy.Shard.Storage.Reliable.{same}
use orchy.Shard.Container.{World, initial_context}
use orchy.Shard.Engine.{init_flow}
use orchy.Shard.Engine.Delays.{retry_failed_action}
use orchy.Shard.Effect.{after_change}
use orchy.Shard.Effect.Retry.{tries, retry_failed_action-retries, retry_failed_action-fails}
use orchy.Shard.Requests.{action_failed}
use orchy.Shard.Steps.Keeps.{Stored}
use orchy.Shard.Steps.Serve.{Event, requested, restarted, run}
use orchy.Shard.Steps.Invariant.{IsWellFormed}
use orchy.Shard.Steps.Start.{init_flow-IsWellFormed}
use orchy.Shard.Steps.Tries.{rounds}
use orchy.Tests.Memory.{Memory, memory, reliable_memory}
use orchy.Tests.Flows.{
  metadata, libs, context, world, wf, id, order, first, definition, fresh_world, first-IsOpen,
}

abbrev now : World Memory
now = world (context running)

-- The fourth try, of three.
abbrev spent : FlowContext
spent = record (context running) { current_action_ids = (pos 1, pos 3) ∷ [] }

first_known : lookup (pos 1) order.actions ≡ some first
unfolding lookup int_beq
first_known = refl

tried_thrice : ltb_ℤ (tries spent (pos 1)) definition.retry_count ≡ false
unfolding lookup int_beq
tried_thrice = refl

-- The first try of three: the policy is FIXED, with five seconds.
tried_once : tries (context running) (pos 1) ≡ pos 1
unfolding lookup int_beq
tried_once = refl

retry_failed_action-retries_example :
    (retry_failed_action memory metadata wf id (lit "charge") (pos 1) now).1.storage
    ≡ (memory.retry wf id (lit "charge") (pos 1) (pos 5_000_000_000) now.storage).1
retry_failed_action-retries_example =
    retry_failed_action-retries memory reliable_memory metadata wf id order refl now
      (context running) (lit "charge") (pos 1) first definition (fresh_world (context running)) refl
      first-IsOpen first_known refl 5 1 refl tried_once (omega arith) (omega arith) refl

abbrev failing : List Event
failing = rounds (lit "charge") (pos 1) 2

retry_failed_action-fails_example :
    (retry_failed_action memory metadata wf id
        (lit "charge")
        (pos 1)
        (world spent)).1.storage.contexts
      wf id
    ≡ (if same wf id wf id
        then after_change order failed [] spent
        else (world spent).storage.contexts wf id)
retry_failed_action-fails_example =
    retry_failed_action-fails memory reliable_memory metadata wf id order refl (world spent) spent
      (lit "charge") (pos 1) first definition (fresh_world spent) refl
      (record { live = refl; fresh = first-IsOpen.fresh }) first_known refl wf id tried_thrice

abbrev no_world : World Memory
no_world = record {
  storage = record { contexts = λ wf id. none; queue = λ wf id a. false };
  machines = [];
  records = [];
}

abbrev begun : World Memory
begun = (init_flow memory metadata wf id end no_world).1

-- The flow is started, its first action fails, and the process is restarted.
abbrev events : List Event
events = requested (action_failed (lit "charge") (pos 1)) ∷ restarted ∷ []

init_flow-IsWellFormed_example :
    ((init_flow memory metadata wf id end no_world).0 ≡ returned (ok tt))
    × (begun.storage.queue wf id (pos 1) ≡ true)
    × (begun.storage.contexts wf id
        ≡ (if same wf id wf id then some (initial_context order id end) else none))
    × Stored
        (IsWellFormed order)
        ((run memory metadata libs wf id events begun).storage.contexts wf id)
init_flow-IsWellFormed_example =
    init_flow-IsWellFormed memory reliable_memory metadata wf id order refl libs first end no_world
      events wf id first_known
