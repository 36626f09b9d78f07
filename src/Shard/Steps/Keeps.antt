-- ===== src/Shard/Steps/Keeps.antt =====
-- A predicate that the parts of a step keep holds of a flow's stored context after any steps.
use orchy.Base.{
  ℤ, int_eq, Text, Bool, true, false, Option, none, some, List, [], ◌≡◌, Option-cases, inl, inr,
}
use orchy.Base.Map.{lookup}
use orchy.Model.{
  FlowContext, FlowState, failed, completed, running, waiting_delay, waiting_event, paused,
}
use orchy.Model.Value.{Fields}
use orchy.Action.{Action, base}
use orchy.Flow.{Flow}
use orchy.Shard.Storage.{Handler, delete, noop, get_handler}
use orchy.Shard.Machine.{move_context}
use orchy.Shard.Engine.{requests}
use orchy.Shard.Effect.{settle, handled, after_change, after_move, is_ignored}
use orchy.Shard.Steps.{
  Move, Moves, here, then_move, finished, tried, gave_up, put_off, awaits, pauses, once_more,
}

-- The stored context, if there is one, satisfies `P`.
abbrev pub Stored : (FlowContext → Type 0) → Option FlowContext → Type 0
Stored P none = Unit
Stored P (some c) = P c

-- A change of the state and of the event keeps `P`; so does a count of a try, and so does MoveForward
-- with the result of an action of the flow that is not ignored.
pub record Keeps (fl : Flow) (P : FlowContext → Type 0) : Type 0 where
  pub change :
      (c : FlowContext) (s : FlowState) (event : Text)
      → P c
      → P (record c { state = s; event = event })
  pub count : (c : FlowContext) (a : ℤ) → P c → P (once_more a c)
  pub move :
      (c : FlowContext) (a : ℤ) (event : Text) (data_map : Option Fields) (resume : Bool)
      (act : Action)
      → is_ignored c a resume ≡ false
      → lookup a fl.actions ≡ some act
      → P c
      → P (move_context fl.terminal_actions (base act).next_map a event data_map c).0

module _ (fl : Flow) (P : FlowContext → Type 0) (keeps : Keeps fl P) where
  settle-Stored : (h : Handler) (c : FlowContext) → P c → Stored P (settle h c)
  settle-Stored delete c p = tt
  settle-Stored noop c p = p

  handled-Stored : (s : FlowState) (c : FlowContext) → P c → Stored P (handled fl s c)
  handled-Stored failed c p = settle-Stored (get_handler fl.failure_handler) c p
  handled-Stored completed c p = settle-Stored (get_handler fl.success_handler) c p
  handled-Stored _ c p = p

  change-Stored :
      (s : FlowState) (event : Text) (c : FlowContext) → P c → Stored P (after_change fl s event c)
  change-Stored s event c p = handled-Stored s _ (keeps.change c s _ p)

  moved-Stored :
      (c c' : FlowContext) (done : Bool) (ids : List ℤ)
      → P c
      → P c'
      → Stored P (after_move fl c (c', done, ids))
  moved-Stored c c' true ids p p' = change-Stored completed [] c' p'
  moved-Stored c c' false ids p p' = elim (Option-cases (requests fl.actions ids)) [
    | inl e ↦ rw e p
    | inr (rs, e) ↦ rw e (keeps.change c' running c'.event p')
  ]

  Move-Stored : {c : FlowContext} {o : Option FlowContext} → Move fl c o → P c → Stored P o
  Move-Stored {c} (finished a event data_map resume act live there e) p =
      let x = move_context fl.terminal_actions (base act).next_map a event data_map c in
      rw e (moved-Stored c x.0 x.1 x.2 p (keeps.move c a event data_map resume act live there p))
  Move-Stored {c} (tried a act o there e) p = rw e (keeps.count c a p)
  Move-Stored {c} (gave_up a o e) p = rw e (change-Stored failed [] c p)
  Move-Stored {c} (put_off a o e) p = rw e (change-Stored waiting_delay [] c p)
  Move-Stored {c} (awaits a event o e) p = rw e (change-Stored waiting_event event c p)
  Move-Stored {c} (pauses e) p = rw e (change-Stored paused [] c p)

  pub Moves-Stored : {o o' : Option FlowContext} → Moves fl o o' → Stored P o → Stored P o'
  Moves-Stored here p = p
  Moves-Stored (then_move ms c e m) p = Move-Stored m (rw e at (Moves-Stored ms p))
