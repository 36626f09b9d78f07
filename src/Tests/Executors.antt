-- ===== src/Tests/Executors.antt =====
-- The theorems on the executor of user actions and on the parameters of actions.
use orchy.Base.{
  pos, int_eq, int_beq, Text, text_eq, lit, true, none, some, List, [], ◌∷◌, ◌++◌, ◌==◌,
  if◌then◌else◌, returned, ◌≡◌, refl,
}
use orchy.Base.Map.{lookup}
use orchy.Model.{ok, running, ActionExecutionRequest}
use orchy.Persistence.Queue.{WorkerAction}
use orchy.Executor.Users.{ExternalQueue, ShardState, handle_user}
use orchy.Executor.Users.HandOut.{Pushes, of_name, jobs, IsKnown, handle_user_lem}
use orchy.Tests.Memory.{Memory, memory_with, reliable_memory_with}
use orchy.Tests.Flows.{world, context, metadata, libs, order, first, wf, id}

-- The actions that were pushed, by their names.
abbrev Queue : Type 0
Queue = Text → List WorkerAction

abbrev external : ExternalQueue Queue
external = record {
  push = λ a q. (ok tt, λ name. if a.action_name == name then q name ++ (a ∷ []) else q name);
  poll = λ name n q. (ok (q name), q);
}

abbrev pushes : Pushes external
pushes = record { pushed = λ q. q; pushed-push = λ a q name. refl }

abbrev charge : ActionExecutionRequest
charge = record {
  workflow_name = wf;
  flow_id = id;
  action_id = pos 1;
  action_name = lit "charge";
  action_type = none;
}

abbrev idle : ShardState Memory Queue
idle = record { world = world (context running); queue = λ name. [] }

charge-IsKnown :
    IsKnown
      (memory_with (charge ∷ []))
      (reliable_memory_with (charge ∷ []))
      metadata
      libs
      external
      pushes
      (λ m. m)
      (λ wf' id'. order)
      charge
unfolding lookup int_beq
charge-IsKnown = record { flow_defined = refl; act = first; action_there = refl }

handle_user_lem_example :
    ((handle_user (memory_with (charge ∷ [])) metadata libs external (λ m. m) (pos 10) idle).0
      ≡ returned true)
    × ((handle_user
          (memory_with (charge ∷ []))
          metadata
          libs
          external
          (λ m. m)
          (pos 10)
          idle).1.world
        ≡ idle.world)
    × ((handle_user
            (memory_with (charge ∷ []))
            metadata
            libs
            external
            (λ m. m)
            (pos 10)
            idle).1.queue
          (lit "charge")
        ≡ of_name (lit "charge") (
            jobs
              (memory_with (charge ∷ []))
              (reliable_memory_with (charge ∷ []))
              metadata
              libs
              external
              pushes
              (λ m. m)
              (λ wf' id'. order)
              (λ wf' id'. some (context running))
              (charge ∷ [])))
handle_user_lem_example =
    handle_user_lem (memory_with (charge ∷ [])) (reliable_memory_with (charge ∷ [])) metadata libs
      external pushes (λ m. m) (λ wf' id'. order) (pos 10) charge [] idle.world.storage idle
      (lit "charge") refl (charge-IsKnown, tt)
