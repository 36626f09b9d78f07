-- ===== src/Shard/Steps/Invariant.antt =====
-- What holds of a flow's stored context after any requests (shard/engine.go, shard/flow.go).
use orchy.Base.{
  ℤ, int_eq, int_beq_iff, Text, Bool, true, false, ◌==◌, Option, some, List, [], ◌∷◌, contains, ◌≡◌,
  refl, arith, Option-cases, Bool-cases, inl, inr,
}
use orchy.Base.Map.{Map, lookup, insert, insert-cases}
use orchy.Model.{
  FlowContext, FlowState, failed, completed, waiting_delay, waiting_event, paused,
  ActionExecutionRequest,
}
use orchy.Model.Value.{Fields}
use orchy.Action.{Action, base}
use orchy.Action.{Libs}
use orchy.Flow.{Flow}
use orchy.Shard.Storage.{Storage}
use orchy.Shard.Storage.Reliable.{Reliable}
use orchy.Shard.Container.{MetadataService, World}
use orchy.Model.{ok}
use orchy.Shard.Effect.Read.{IsCurrent}
use orchy.Shard.Steps.Keeps.{Stored}
use orchy.Shard.Steps.Serve.{Event, run, run_own-Moves}
use orchy.Shard.Storage.{get_handler, Handler, delete, noop}
use orchy.Shard.Machine.{move_context}
use orchy.Shard.Machine.Moves.{lookup-current}
use orchy.Shard.Machine.Complete.{EndIsReached, move_context_complete}
use orchy.Shard.Engine.{requests}
use orchy.Shard.Effect.{settle, handled, after_change, after_move}
use orchy.Shard.Effect.Retry.{IsOpen}
use orchy.Shard.Steps.{
  Move, Moves, here, then_move, finished, tried, gave_up, put_off, awaits, pauses, once_more,
}

-- The current actions of a context are actions of the flow; and if the flow is completed, some
-- group of terminal actions is executed whole.
pub record IsWellFormed (fl : Flow) (c : FlowContext) : Type 0 where
  pub current_defined :
      (k n : ℤ)
      → lookup k c.current_action_ids ≡ some n
      → (act : Action) × (lookup k fl.actions ≡ some act)
  pub completed_ended : c.state ≡ completed → EndIsReached fl.terminal_actions c.executed_actions

requests-defined :
    (actions : Map ℤ Action) (ids : List ℤ) (rs : List ActionExecutionRequest) (k : ℤ)
    → requests actions ids ≡ some rs
    → contains ids k ≡ true
    → (act : Action) × (lookup k actions ≡ some act)
unfolding requests contains
requests-defined actions [] rs k h inside = cc
requests-defined actions (j ∷ ids) rs k h inside = elim (Option-cases (lookup j actions)) [
  | inl e ↦ absurd (ground arith)
  | inr (act, e) ↦ elim (Option-cases (requests actions ids)) [
    | inl e' ↦ absurd (ground arith)
    | inr (rest, e') ↦ elim (Bool-cases (j == k)) [
      | inl same ↦ (act, rw (← (int_beq_iff j k).0 same) e)
      | inr other ↦ requests-defined actions ids rest k e' (ground arith)
    ]
  ]
]

module _ (fl : Flow) (c : FlowContext) where
  settle-Stored : (h : Handler) → IsWellFormed fl c → Stored (IsWellFormed fl) (settle h c)
  settle-Stored delete v = tt
  settle-Stored noop v = v

  handled-Stored : (s : FlowState) → IsWellFormed fl c → Stored (IsWellFormed fl) (handled fl s c)
  handled-Stored failed v = settle-Stored (get_handler fl.failure_handler) v
  handled-Stored completed v = settle-Stored (get_handler fl.success_handler) v
  handled-Stored _ v = v

-- A change of state to another one than completed.
change-Stored :
    (fl : Flow) (c : FlowContext) (s : FlowState) (event : Text)
    → IsWellFormed fl c
    → (s ≡ completed → EndIsReached fl.terminal_actions c.executed_actions)
    → Stored (IsWellFormed fl) (after_change fl s event c)
change-Stored fl c s event v ended =
    handled-Stored fl (record c { state = s; event = _ }) s
      (record { current_defined = v.current_defined; completed_ended = ended })

module _ (fl : Flow) (c : FlowContext) (v : IsWellFormed fl c) (a : ℤ) (act : Action) (event : Text)
    (data_map : Option Fields) where
  abbrev x : FlowContext × Bool × List ℤ
  x = move_context fl.terminal_actions (base act).next_map a event data_map c

  current-kept :
      ((k : ℤ) → contains x.2 k ≡ true → (act : Action) × (lookup k fl.actions ≡ some act))
      → (k n : ℤ) → lookup k x.0.current_action_ids ≡ some n
      → (act : Action) × (lookup k fl.actions ≡ some act)
  current-kept next k n h = elim (Bool-cases (contains x.2 k)) [
    | inl inside ↦ next k inside
    | inr outside ↦ v.current_defined k n (
        ground (arith, lookup-current fl.terminal_actions (base act).next_map a event data_map c k))
  ]

  executed-move : x.0.executed_actions ≡ insert a true c.executed_actions
  unfolding move_context
  executed-move = ground arith

  nothing_next : x.1 ≡ true → x.2 ≡ []
  nothing_next h =
      let (_, _, ids) =
        move_context_complete fl.terminal_actions (base act).next_map a event data_map c in
      rw h at ids

  ended : x.1 ≡ true → EndIsReached fl.terminal_actions x.0.executed_actions
  ended h =
      let (complete, _, _) =
        move_context_complete fl.terminal_actions (base act).next_map a event data_map c in
      rw executed-move (complete.0 h)

  moved-Stored : (b : Bool) → x.1 ≡ b → Stored (IsWellFormed fl) (after_move fl c (x.0, b, x.2))
  unfolding contains
  moved-Stored true h =
      let none_next : (k : ℤ)
          → contains x.2 k ≡ true
          → (act : Action) × (lookup k fl.actions ≡ some act) =
        λ k inside. absurd (ground (arith, nothing_next h)) in
      let formed : IsWellFormed fl x.0 = record {
        current_defined = current-kept none_next;
        completed_ended = λ e. ended h;
      } in
      change-Stored fl x.0 completed [] formed (λ e. ended h)
  moved-Stored false h = elim (Option-cases (requests fl.actions x.2)) [
    | inl e ↦ rw e v
    | inr (rs, e) ↦ rw e (record {
      current_defined = current-kept (λ k inside. requests-defined fl.actions x.2 rs k e inside);
      completed_ended = λ s. cc;
    })
  ]

tried-IsWellFormed :
    (fl : Flow) (c : FlowContext) (a : ℤ) (act : Action)
    → IsOpen c a
    → lookup a fl.actions ≡ some act
    → IsWellFormed fl c
    → IsWellFormed fl (once_more a c)
tried-IsWellFormed fl c a act o there v = record {
  current_defined = λ k n h. elim (insert-cases a k _ n c.current_action_ids h) [
    | inl (same, _) ↦ (act, rw (← same) there)
    | inr old ↦ v.current_defined k n old
  ];
  completed_ended = v.completed_ended;
}

Move-IsWellFormed :
    (fl : Flow) {c : FlowContext} {o : Option FlowContext}
    → Move fl c o
    → IsWellFormed fl c
    → Stored (IsWellFormed fl) o
Move-IsWellFormed fl {c} (finished a event data_map resume act live there e) v =
    rw e (moved-Stored fl c v a act event data_map _ refl)
Move-IsWellFormed fl {c} (tried a act o there e) v = rw e (tried-IsWellFormed fl c a act o there v)
Move-IsWellFormed fl (gave_up a o e) v = rw e (change-Stored fl _ failed [] v (λ h. cc))
Move-IsWellFormed fl (put_off a o e) v = rw e (change-Stored fl _ waiting_delay [] v (λ h. cc))
Move-IsWellFormed fl (awaits a event o e) v =
    rw e (change-Stored fl _ waiting_event event v (λ h. cc))
Move-IsWellFormed fl (pauses e) v = rw e (change-Stored fl _ paused [] v (λ h. cc))

Moves-IsWellFormed :
    (fl : Flow) {o o' : Option FlowContext}
    → Moves fl o o'
    → Stored (IsWellFormed fl) o
    → Stored (IsWellFormed fl) o'
Moves-IsWellFormed fl here v = v
Moves-IsWellFormed fl (then_move ms c e m) v =
    Move-IsWellFormed fl m (rw e at (Moves-IsWellFormed fl ms v))

module _ {S : Type 0} (st : Storage S) (rel : Reliable st) (md : MetadataService) (wf id : Text)
    (fl : Flow) (defined : md.get_flow wf id ≡ some (ok fl)) (lib : Libs) where
  -- For a storage that does not fail, and a flow that GetFlow returns and that its machine, if one
  -- is cached, runs:
  -- Whatever is requested of a flow, in whatever order, with pauses and restarts between: the
  -- current actions of its stored context stay actions of its definition, and a context whose
  -- state is completed has some group of terminal actions executed whole.
  pub run-IsWellFormed :
      (es : List Event) (w : World S)
      → IsCurrent wf id fl w
      → Stored (IsWellFormed fl) (rel.view w.storage wf id)
      → Stored (IsWellFormed fl) (rel.view (run st md lib wf id es w).storage wf id)
  run-IsWellFormed es w cur v =
      Moves-IsWellFormed fl (run_own-Moves st rel md wf id fl defined lib es w cur) v
