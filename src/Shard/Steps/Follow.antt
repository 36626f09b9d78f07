-- ===== src/Shard/Steps/Follow.antt =====
-- The parts of the operations of shard/engine.go, on a flow whose context follows the steps.
use orchy.Base.{
  ℤ, int_eq, Text, text_eq, text_beq_iff, ==_refl, Bool, true, false, if◌then◌else◌, Option, none,
  some, returned, ◌≡◌, refl, ◌∙◌, arith, Option-cases, Bool-cases, inl, inr, ◌⊎◌,
}
use orchy.Base.Map.{lookup}
use orchy.Model.{Result, ok, err, FlowContext, FlowState, flow_already_completed}
use orchy.Model.Value.{Fields}
use orchy.Flow.{Flow}
use orchy.Shard.Storage.{Storage}
use orchy.Shard.Storage.Reliable.{Reliable, same}
use orchy.Shard.Machine.{FlowStateMachine, validate}
use orchy.Shard.Container.{MetadataService, World, get, call, cached}
use orchy.Shard.Engine.{Step, with_machine, if_valid, with_valid, change_state_with_event, execute}
use orchy.Shard.Effect.{is_ignored, after_done, after_change}
use orchy.Shard.Effect.Read.{IsCurrent, get_lem, insert-IsCurrent}
use orchy.Shard.Effect.Change.{view-change_state_with_event}
use orchy.Shard.Effect.Done.{view-execute}
use orchy.Shard.Effect.Retry.{IsOpen}
use orchy.Shard.Steps.{Move, Moves, then_move, finished}
use orchy.Shard.Steps.Current.{change_state_with_event-KeepsFlow, execute-KeepsFlow}

pub IsOpen-of_validate : (m : FlowStateMachine) (a : ℤ) → validate m a ≡ ok tt → IsOpen m.context a
unfolding validate
IsOpen-of_validate m a h = record { live = ground arith; fresh = ground arith }

module _ {S : Type 0} (st : Storage S) (rel : Reliable st) (md : MetadataService) (wf id : Text)
    (fl : Flow) (defined : md.get_flow wf id ≡ some (ok fl)) (before : S) where
  -- Between the storage before and the world w the flow's context made steps, and the contexts of the
  -- other flows stayed.
  pub record Follows (w : World S) : Type 0 where
    pub current : IsCurrent wf id fl w
    pub moves : Moves fl (rel.view before wf id) (rel.view w.storage wf id)
    pub others :
        (wf' id' : Text)
        → same wf id wf' id' ≡ false
        → rel.view w.storage wf' id' ≡ rel.view before wf' id'

  same_self : same wf id wf id ≡ true
  same_self = rw (==_refl wf, ==_refl id)

  pub Follows-of_move :
      (w w' : World S) (c : FlowContext) (o : Option FlowContext)
      → Follows w
      → rel.view w.storage wf id ≡ some c
      → Move fl c o
      → IsCurrent wf id fl w'
      → ((wf' id' : Text)
          → rel.view w'.storage wf' id'
            ≡ (if same wf id wf' id' then o else rel.view w.storage wf' id'))
      → Follows w'
  Follows-of_move w w' c o h v m cur views = record {
    current = cur;
    moves = rw (views wf id, same_self) (then_move h.moves c v m);
    others = λ wf' id' e. ground (arith, views wf' id', h.others wf' id' e);
  }

  pub Follows-of_same :
      (w w' : World S)
      → Follows w
      → IsCurrent wf id fl w'
      → ((wf' id' : Text) → rel.view w'.storage wf' id' ≡ rel.view w.storage wf' id')
      → Follows w'
  Follows-of_same w w' h cur views = record {
    current = cur;
    moves = rw (views wf id) h.moves;
    others = λ wf' id' e. views wf' id' ∙ h.others wf' id' e;
  }

  kept :
      (s : S) (c : FlowContext) (wf' id' : Text)
      → rel.view s wf id ≡ some c
      → (if same wf id wf' id' then some c else rel.view s wf' id') ≡ rel.view s wf' id'
  kept s c wf' id' v = ground (arith, text_beq_iff wf wf', text_beq_iff id id')

  -- Without a stored context Get refuses, and nothing changes.
  pub get_none :
      (w : World S)
      → rel.view w.storage wf id ≡ none
      → get st md wf id w ≡ (returned (err flow_already_completed), w)
  unfolding get call cached
  get_none w v = ground (arith, rel.get_law wf id w.storage)

  pub with_machine-Follows :
      (f : FlowStateMachine → Step st md)
      → ((m : FlowStateMachine) (w : World S)
          → m.flow ≡ fl
          → Follows w
          → rel.view w.storage wf id ≡ some m.context
          → Follows (f m w).1)
      → (w : World S) → Follows w
      → Follows (with_machine st md wf id f w).1
  with_machine-Follows f step w h = elim (Option-cases (rel.view w.storage wf id)) [
    | inl v ↦ rw (get_none w v) h
    | inr (c, v) ↦
        let (m, w', got, ec, ef, es, em) = get_lem st rel md wf id fl defined w c h.current v in
        rw got (
          step m w' ef
            (Follows-of_same w w' h (insert-IsCurrent st rel md wf id fl defined w w' m ef em)
              (λ wf' id'. rw es))
            (rw (es, ec) v))
  ]

  pub with_valid-Follows :
      (a : ℤ) (f : FlowStateMachine → Step st md)
      → ((m : FlowStateMachine) (w : World S)
          → m.flow ≡ fl
          → IsOpen m.context a
          → Follows w
          → rel.view w.storage wf id ≡ some m.context
          → Follows (f m w).1)
      → (w : World S) → Follows w
      → Follows (with_valid st md wf id a f w).1
  with_valid-Follows a f step =
      with_machine-Follows (λ m. if_valid st md (validate m a) (f m))
        λ m w ef h v. valid (validate m a) m w refl ef h v
    where
      valid :
          (r : Result (Unit {0})) (m : FlowStateMachine) (w : World S)
          → validate m a ≡ r
          → m.flow ≡ fl
          → Follows w
          → rel.view w.storage wf id ≡ some m.context
          → Follows (if_valid st md r (f m) w).1
      valid (ok tt) m w e ef h v = step m w ef (IsOpen-of_validate m a e) h v
      valid (err x) m w e ef h v = h

  -- A change of state that is a step.
  pub change-Follows :
      (s : FlowState) (event : Text) (w : World S) (c : FlowContext)
      → Follows w
      → rel.view w.storage wf id ≡ some c
      → Move fl c (after_change fl s event c)
      → Follows (change_state_with_event st md wf id s event w).1
  change-Follows s event w c h v m =
      Follows-of_move w _ c (after_change fl s event c) h v m
        (change_state_with_event-KeepsFlow st md wf id fl defined s event w h.current)
        (λ wf' id'.
          view-change_state_with_event st rel md wf id fl defined w c s event wf' id' h.current v)

  -- What the result of an action does to a context is a step, or nothing.
  done_moves :
      (c : FlowContext) (a : ℤ) (event : Text) (data_map : Option Fields) (resume : Bool)
      → (after_done fl a event data_map resume c ≡ some c)
        ⊎ Move fl c (after_done fl a event data_map resume c)
  done_moves c a event data_map resume = elim (Bool-cases (is_ignored c a resume)) [
    | inl e ↦ inl (rw e)
    | inr e ↦ elim (Option-cases (lookup a fl.actions)) [
      | inl none_there ↦ inl (rw (e, none_there))
      | inr (act, there) ↦ inr (finished a event data_map resume act e there (rw (e, there)))
    ]
  ]

  -- The result of an action.
  pub execute-Follows :
      (a : ℤ) (event : Text) (data_map : Option Fields) (resume : Bool) (w : World S)
      → Follows w
      → Follows (execute st md wf id a event data_map resume w).1
  execute-Follows a event data_map resume w h = elim (Option-cases (rel.view w.storage wf id)) [
    | inl v ↦ unfold execute in rw (get_none w v) h
    | inr (c, v) ↦
        let cur = execute-KeepsFlow st md wf id fl defined a event data_map resume w h.current in
        let views = λ (wf' id' : Text).
          view-execute st rel md wf id fl defined w c a event data_map resume wf' id' h.current v in
        elim (done_moves c a event data_map resume) [
          | inl e ↦
              Follows-of_same w _ h cur
                (λ wf' id'. views wf' id' ∙ rw e (kept w.storage c wf' id' v))
          | inr m ↦ Follows-of_move w _ c _ h v m cur views
        ]
  ]
