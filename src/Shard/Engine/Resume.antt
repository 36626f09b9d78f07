-- ===== src/Shard/Engine/Resume.antt =====
-- ExecuteResume and ExecuteResumeAfterWait of shard/engine.go.
use orchy.Base.{
  ℤ, int_eq, Text, text_eq, if◌then◌else◌, none, List, [], ◌∷◌, ◌==◌, Exec, pure, ◌>>=◌, ◌>>◌,
}
use orchy.Base.Map.{keys}
use orchy.Model.{Result, ok, err, event_mismatch, flow_already_completed}
use orchy.Shard.Storage.{Storage}
use orchy.Shard.Machine.{FlowStateMachine, is_terminal}
use orchy.Shard.Container.{MetadataService, World, get}
use orchy.Shard.Engine.{Step, with_machine, execute_action, execute_action_resume}

module _ {S : Type 0} (st : Storage S) (md : MetadataService) where
  -- The loop of ExecuteResume, over the keys of the context that was read before it.
  unfoldable pub resume_each : Text → Text → Text → List ℤ → Step st md
  resume_each wf id event [] = pure tt
  resume_each wf id event (k ∷ ks) =
      execute_action_resume st md wf id event k none >> resume_each wf id event ks

  -- ExecuteResume
  unfoldable pub execute_resume : Text → Text → Text → Step st md
  execute_resume wf id event = with_machine st md wf id λ m.
      if is_terminal m.context.state
      then pure tt
      else resume_each wf id event (keys m.context.current_action_ids)

  -- The loop of ExecuteResumeAfterWait.
  unfoldable pub execute_each : Text → Text → Text → List ℤ → Step st md
  execute_each wf id event [] = pure tt
  execute_each wf id event (k ∷ ks) =
      execute_action st md wf id event k none >> execute_each wf id event ks

  abbrev pub resume_waiting :
      Text → Text → Text → Result FlowStateMachine → Exec (World S) (Result (Unit {0}))
  resume_waiting wf id event (err e) = pure (err e)
  resume_waiting wf id event (ok m) =
      if m.context.event == event
      then if is_terminal m.context.state
        then pure (err flow_already_completed)
        else (do execute_each wf id event (keys m.context.current_action_ids); pure (ok tt))
      else pure (err (event_mismatch event m.context.event))

  -- ExecuteResumeAfterWait
  unfoldable pub execute_resume_after_wait : Text → Text → Text → Exec (World S) (Result (Unit {0}))
  execute_resume_after_wait wf id event = do m ← get st md wf id; resume_waiting wf id event m
