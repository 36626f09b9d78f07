-- ===== src/Executor/Worker/Races.antt =====
-- What the calls of Start and Stop may come to (util/worker.go, shard/executor) when they do not
-- wait for the effect of the one before.
use orchy.Base.{true, false, List, [], ◌∷◌, ◌≡◌, refl, arith}
use orchy.Executor.Worker.Steps.{
  idle, sending, State, Call, start_call, stop_call, Step, skip_start, begin_start, end_start,
  skip_stop, begin_stop, receive, leave, Run, rest, then_step, IsSingle, IsSettled,
}

abbrev pub running_state : State
running_state = record { running = true; caller = idle; looping = 1; leaving = 0 }

abbrev stopped_state : State
stopped_state = record { running = false; caller = idle; looping = 0; leaving = 0 }

abbrev stuck_state : State
stuck_state = record { running = false; caller = sending; looping = 0; leaving = 0 }

stuck : {u : State} {calls : List Call} → Step stuck_state calls u → ⊥
stuck (skip_start e e') = cc
stuck (begin_start e e') = cc
stuck (end_start e) = cc
stuck (skip_stop e e') = cc
stuck (begin_stop e e') = cc
stuck (receive n e e') = absurd (omega (arith, e'))
stuck (leave n e) = absurd (omega (arith, e))

-- From every state between two calls in which the executor runs and no goroutine is about to end: a
-- Stop and then a Start may both return and leave the executor stopped; and of two Stops the second
-- may wait at its send for a goroutine that has left, after which no step is possible any more.
pub stop-races :
    (s : State)
    → IsSingle s
    → IsSettled s
    → s.running ≡ true
    → ((t : State) × Run s (stop_call ∷ start_call ∷ []) t
        × IsSettled t
        × (t.running ≡ false)
        × (t.looping ≡ 0))
      × ((t : State) × Run s (stop_call ∷ stop_call ∷ []) t
          × (t.caller ≡ sending)
          × ((u : State) (calls : List Call) → Step t calls u → ⊥))
stop-races s h settled runs =
    let loops : s.looping ≡ 1 = ground arith in
    let same : s ≡ running_state = ground arith in
    rw same (
      (
        stopped_state,
        then_step
            (then_step (then_step (then_step rest (begin_stop refl refl)) (receive 0 refl refl))
              (skip_start refl refl))
            (leave 0 refl),
        (refl, refl),
        refl,
        refl,
      ),
      (
        stuck_state,
        then_step
            (then_step (then_step (then_step rest (begin_stop refl refl)) (receive 0 refl refl))
              (begin_stop refl refl))
            (leave 0 refl),
        refl,
        λ u calls step. stuck step,
      ),
    )
