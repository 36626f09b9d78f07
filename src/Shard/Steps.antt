-- ===== src/Shard/Steps.antt =====
-- The steps that a flow's stored context makes: the state machine of a flow as a relation, over the
-- functions of Effect. The modules below prove that the engine of shard/engine.go follows it.
pub mod Current
pub mod Follow
pub mod Retries
pub mod System
pub mod Serve
pub mod Invariant
pub mod Keeps
pub mod Forever
pub mod Settled
pub mod Outputs
pub mod Delay
pub mod Wait
pub mod Start
pub mod Tries
use orchy.Base.{ℤ, pos, int64, int_eq, ◌+ℤ◌, Text, [], Bool, false, Option, some, ◌≡◌}
use orchy.Base.Map.{lookup, insert}
use orchy.Model.{FlowContext, failed, waiting_delay, waiting_event, paused}
use orchy.Model.Value.{Fields}
use orchy.Action.{Action, base}
use orchy.Flow.{Flow}
use orchy.Shard.Machine.{move_context}
use orchy.Shard.Effect.{is_ignored, after_move, after_change}
use orchy.Shard.Effect.Retry.{IsOpen, tries}

-- One more try of an action is counted.
abbrev pub once_more : ℤ → FlowContext → FlowContext
once_more a c = record c {
  current_action_ids = insert a (int64 (tries c a +ℤ pos 1)) c.current_action_ids;
}

module _ (fl : Flow) where
  -- One step of a stored context; `none` is a context that is deleted.
  pub data Move (c : FlowContext) : Option FlowContext → Type 0 where
    -- The result of an action.
    finished :
        (a : ℤ) (event : Text) (data_map : Option Fields) (resume : Bool) (act : Action)
        {o : Option FlowContext}
        → is_ignored c a resume ≡ false
        → lookup a fl.actions ≡ some act
        → o
          ≡ after_move fl c
              (move_context fl.terminal_actions (base act).next_map a event data_map c)
        → Move c o
    -- A retry that is due.
    tried :
        (a : ℤ) (act : Action) {o : Option FlowContext}
        → IsOpen c a
        → lookup a fl.actions ≡ some act
        → o ≡ some (once_more a c)
        → Move c o
    -- An action failed, and has no try left or is a system action.
    gave_up :
        (a : ℤ) {o : Option FlowContext} → IsOpen c a → o ≡ after_change fl failed [] c → Move c o
    -- The system actions delay and wait.
    put_off :
        (a : ℤ) {o : Option FlowContext}
        → IsOpen c a
        → o ≡ after_change fl waiting_delay [] c
        → Move c o
    awaits :
        (a : ℤ) (event : Text) {o : Option FlowContext}
        → IsOpen c a
        → o ≡ after_change fl waiting_event event c
        → Move c o
    -- A pause that is asked for: whatever the state is.
    pauses : {o : Option FlowContext} → o ≡ after_change fl paused [] c → Move c o

  -- Steps in sequence.
  pub data Moves (o : Option FlowContext) : Option FlowContext → Type 0 where
    here : Moves o o
    then_move :
        {o' o'' : Option FlowContext}
        → Moves o o'
        → (c : FlowContext) → o' ≡ some c
        → Move c o''
        → Moves o o''

-- One sequence of steps after another.
pub Moves-append :
    {fl : Flow} {a b c : Option FlowContext} → Moves fl a b → Moves fl b c → Moves fl a c
Moves-append ms here = ms
Moves-append ms (then_move more c e m) = then_move (Moves-append ms more) c e m
