-- ===== src/Tests/Effects.antt =====
-- The theorems on what a request makes of a stored context.
use orchy.Base.{
  ℤ, pos, int_eq, int_beq, text_eq, text_beq, lit, Bool, true, false, none, some, List, [], ◌∷◌,
  contains, ◌≡◌, refl, if◌then◌else◌,
}
use orchy.Base.Map.{lookup, insert, keys, delete}
use orchy.Util.Slice.{contains_all}
use orchy.Model.{FlowContext, user, running, paused, ActionExecutionRequest}
use orchy.Action.{branches}
use orchy.Shard.Storage.Reliable.{same}
use orchy.Shard.Machine.{
  move_context, is_complete, some_contained, next_actions, add_current, record_output,
}
use orchy.Shard.Container.{World}
use orchy.Shard.Engine.{requests, execute, change_state_with_event}
use orchy.Shard.Engine.Resume.{execute_resume_after_wait}
use orchy.Shard.Effect.{is_ignored, after_done, after_change}
use orchy.Shard.Effect.Done.{view-execute}
use orchy.Shard.Effect.Dispatch.{pending-execute}
use orchy.Shard.Effect.Change.{view-change_state_with_event}
use orchy.Shard.Effect.Event.{after_event, view-execute_resume_after_wait}
use orchy.Tests.Memory.{Memory, memory, reliable_memory}
use orchy.Tests.Flows.{
  metadata, context, world, later, wf, id, order, first, fresh_world, next_of_first,
}

abbrev now : World Memory
now = world (context running)

view-execute_example :
    (execute memory metadata wf id (pos 1) (lit "default") none false now).1.storage.contexts wf id
    ≡ (if same wf id wf id
        then after_done order (pos 1) (lit "default") none false (context running)
        else now.storage.contexts wf id)
view-execute_example =
    view-execute memory reliable_memory metadata wf id order refl now (context running) (pos 1)
      (lit "default") none false wf id (fresh_world (context running)) refl

first_known : lookup (pos 1) order.actions ≡ some first
unfolding lookup int_beq
first_known = refl

not_ignored : is_ignored (context running) (pos 1) false ≡ false
unfolding lookup
not_ignored = refl

second_listed : contains (pos 2 ∷ []) (pos 2) ≡ true
unfolding contains int_beq
second_listed = refl

abbrev second_request : List ActionExecutionRequest
second_request =
    record {
      workflow_name = [];
      flow_id = [];
      action_id = pos 2;
      action_name = lit "ship";
      action_type = some user;
    }
    ∷ []

second_requested : requests order.actions (pos 2 ∷ []) ≡ some second_request
unfolding requests lookup int_beq
second_requested = refl

abbrev after_first : FlowContext × Bool × List ℤ
after_first = (record later { executed_actions = (pos 1, true) ∷ [] }, false, pos 2 ∷ [])

first_moves :
    move_context order.terminal_actions next_of_first (pos 1) (lit "default") none (context running)
    ≡ after_first
unfolding move_context lookup int_beq is_complete some_contained contains_all next_actions
    add_current record_output keys insert branches text_beq delete
first_moves = refl

pending-execute_example :
    (execute memory metadata wf id (pos 1) (lit "default") none false now).1.storage.queue wf id
      (pos 2)
    ≡ true
pending-execute_example =
    pending-execute memory reliable_memory metadata wf id order refl now (context running) (pos 1)
      (lit "default") none false first second_request (pos 2) (fresh_world (context running)) refl
      not_ignored first_known after_first first_moves refl second_requested second_listed

view-change_state_with_event_example :
    (change_state_with_event memory metadata wf id paused [] now).1.storage.contexts wf id ≡ (
      if same wf id wf id
      then after_change order paused [] (context running)
      else now.storage.contexts wf id)
view-change_state_with_event_example =
    view-change_state_with_event memory reliable_memory metadata wf id order refl now
      (context running) paused [] wf id (fresh_world (context running)) refl

view-execute_resume_after_wait_example :
    (execute_resume_after_wait memory metadata wf id (lit "paid") now).1.storage.contexts wf id ≡ (
      if same wf id wf id
      then after_event order (pos 1) (context running)
      else now.storage.contexts wf id)
view-execute_resume_after_wait_example =
    view-execute_resume_after_wait memory reliable_memory metadata wf id order refl now
      (context running) (pos 1) (pos 1) (fresh_world (context running)) refl refl refl wf id
