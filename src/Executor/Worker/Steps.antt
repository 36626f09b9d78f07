-- ===== src/Executor/Worker/Steps.antt =====
-- util/worker.go and the executors' Start and Stop (shard/executor), step by step: the thread that
-- calls Start and Stop, which holds a lock while it does, against the goroutines that it started.
-- The channel `stop` has no buffer, so that a send and its receipt are one step.
use orchy.Base.{ℕ, suc, ◌+◌, ◌≤◌, Bool, true, false, if◌then◌else◌, List, [], ◌∷◌, ◌++◌, ◌≡◌, arith}

-- Where the calling thread is: in no call, in Start between `go` and the flag, or at the send.
pub data Caller : Type 0 where
  idle starting sending : Caller

pub record State : Type 0 where
  pub running : Bool
  pub caller : Caller
  -- The goroutines in the loop, and those that received the signal and have not reset the flag yet.
  pub looping : ℕ
  pub leaving : ℕ

pub data Call : Type 0 where
  start_call stop_call : Call

-- The steps, with the call that one begins. A round of the handler changes nothing here.
pub data Step (s : State) : List Call → State → Type 0 where
  skip_start : s.caller ≡ idle → s.running ≡ true → Step s (start_call ∷ []) s
  begin_start :
      s.caller ≡ idle
      → s.running ≡ false
      → Step s (start_call ∷ []) (record s { caller = starting; looping = s.looping + 1 })
  end_start : s.caller ≡ starting → Step s [] (record s { caller = idle; running = true })
  skip_stop : s.caller ≡ idle → s.running ≡ false → Step s (stop_call ∷ []) s
  begin_stop :
      s.caller ≡ idle → s.running ≡ true → Step s (stop_call ∷ []) (record s { caller = sending })
  receive :
      (n : ℕ)
      → s.caller ≡ sending
      → s.looping ≡ suc n
      → Step s [] (record s { caller = idle; looping = n; leaving = s.leaving + 1 })
  leave : (n : ℕ) → s.leaving ≡ suc n → Step s [] (record s { leaving = n; running = false })

-- Any number of steps, and the calls that they begin.
pub data Run (s : State) : List Call → State → Type 0 where
  rest : Run s [] s
  then_step :
      {t u : State} {calls more : List Call}
      → Run s calls t
      → Step t more u
      → Run s (calls ++ more) u

abbrev pub new_state : State
new_state = record { running = false; caller = idle; looping = 0; leaving = 0 }

-- One goroutine at most; none of them in the loop but while the flag is set or about to be.
pub record IsSingle (s : State) : Type 0 where
  pub one : s.looping + s.leaving ≤ 1
  pub flag_set : s.running ≡ true → s.caller ≡ idle → s.looping + s.leaving ≡ 1
  pub flag_reset : s.running ≡ false → s.caller ≡ idle → s.looping + s.leaving ≡ 0
  pub starts : s.caller ≡ starting → (s.running ≡ false) × (s.looping ≡ 1) × (s.leaving ≡ 0)
  pub waits : s.caller ≡ sending → s.running ≡ false → s.looping + s.leaving ≡ 0
  pub sends : s.caller ≡ sending → s.running ≡ true → s.looping + s.leaving ≡ 1

pub Step-IsSingle : {s t : State} {calls : List Call} → Step s calls t → IsSingle s → IsSingle t
Step-IsSingle (skip_start e e') h = h
Step-IsSingle (begin_start e e') h = ground arith
Step-IsSingle (end_start e) h = ground arith
Step-IsSingle (skip_stop e e') h = h
Step-IsSingle (begin_stop e e') h = ground arith
Step-IsSingle (receive n e e') h = ground arith
Step-IsSingle (leave n e) h = ground arith

pub Run-IsSingle : {s t : State} {calls : List Call} → Run s calls t → IsSingle s → IsSingle t
Run-IsSingle rest h = h
Run-IsSingle (then_step run step) h = Step-IsSingle step (Run-IsSingle run h)

pub new_state-IsSingle : IsSingle new_state
new_state-IsSingle = ground arith

-- The state between two calls, once the signal of the last one was handled.
abbrev pub IsSettled : State → Type 0
IsSettled s = (s.caller ≡ idle) × (s.leaving ≡ 0)

-- In whatever order the steps of the caller and of the goroutines come: an executor has one
-- goroutine at most, and when it is settled it has one in the loop exactly if it says that it runs.
pub new_state-run :
    {s : State} {calls : List Call}
    → Run new_state calls s
    → (s.looping + s.leaving ≤ 1) × (IsSettled s → s.looping ≡ (if s.running then 1 else 0))
new_state-run run = let h = Run-IsSingle run new_state-IsSingle in (h.one, λ settled. ground arith)
