-- ===== src/Executor/Worker/Patient.antt =====
-- What the calls of Start and Stop come to (util/worker.go, shard/executor) when each waits for the
-- effect of the one before.
use orchy.Base.{
  ℕ, zero, suc, Bool, true, false, if◌then◌else◌, List, [], ◌∷◌, ◌++◌, ◌≡◌, refl, sym, ap, ◌∙◌,
  arith,
}
use orchy.Executor.Worker.Steps.{
  Caller, idle, starting, sending, State, Call, start_call, stop_call, Step, skip_start,
  begin_start, end_start, skip_stop, begin_stop, receive, leave, Run, rest, then_step, new_state,
  IsSingle, new_state-IsSingle, Run-IsSingle, IsSettled,
}

-- What the last of the calls asks for.
unfoldable pub wanted : List Call → Bool → Bool
wanted [] b = b
wanted (start_call ∷ calls) b = wanted calls true
wanted (stop_call ∷ calls) b = wanted calls false

-- What the state comes to without another call.
abbrev aim : Caller → ℕ → Bool → Bool
aim idle zero b = b
aim idle (suc n) b = false
aim starting n b = true
aim sending n b = false

abbrev pub IsPatient : State → List Call → Type 0
IsPatient s [] = Unit
IsPatient s (call ∷ calls) = s.leaving ≡ 0

-- A run in which each call begins after the signal of the one before was handled.
pub data PatientRun (s : State) : List Call → State → Type 0 where
  patient_rest : PatientRun s [] s
  patient_step :
      {t u : State} {calls more : List Call}
      → PatientRun s calls t
      → IsPatient t more
      → Step t more u
      → PatientRun s (calls ++ more) u

forget : {s t : State} {calls : List Call} → PatientRun s calls t → Run s calls t
forget patient_rest = rest
forget (patient_step run patient step) = then_step (forget run) step

aim-leaving : (c : Caller) (b : Bool) → (c ≡ starting → ⊥) → aim c 0 false ≡ aim c 1 b
aim-leaving idle b h = refl
aim-leaving starting b h = absurd (h refl)
aim-leaving sending b h = refl

step-aim :
    {s t : State} {calls : List Call}
    → IsSingle s
    → IsPatient s calls
    → Step s calls t
    → aim t.caller t.leaving t.running ≡ wanted calls (aim s.caller s.leaving s.running)
unfolding wanted
step-aim {s} h p (skip_start e e') = rw (e, e', p) refl
step-aim {s} h p (begin_start e e') = refl
step-aim {s} h p (end_start e) = rw (e, (h.starts e).2) refl
step-aim {s} h p (skip_stop e e') = rw (e, e', p) refl
step-aim {s} h p (begin_stop e e') = refl
step-aim {s} h p (receive n e e') =
    let none_left : s.leaving ≡ 0 = omega (arith, e', h.one) in rw (e, none_left) refl
step-aim {s} h p (leave n e) =
    let last : n ≡ 0 = omega (arith, e, h.one) in
    rw (e, last) (aim-leaving s.caller s.running (λ starts. ground (arith, (h.starts starts).2)))

pub wanted-append :
    (calls more : List Call) (b : Bool) → wanted (calls ++ more) b ≡ wanted more (wanted calls b)
unfolding wanted
wanted-append [] more b = refl
wanted-append (start_call ∷ calls) more b = wanted-append calls more true
wanted-append (stop_call ∷ calls) more b = wanted-append calls more false

run-aim :
    {s : State} {calls : List Call}
    → PatientRun new_state calls s
    → aim s.caller s.leaving s.running ≡ wanted calls false
unfolding wanted
run-aim patient_rest = refl
run-aim (patient_step {t} {u} {calls} {more} run patient step) =
    step-aim (Run-IsSingle (forget run) new_state-IsSingle) patient step
    ∙ ap (wanted more) (run-aim run)
    ∙ sym (wanted-append calls more false)

-- If each call begins only after the goroutine that the one before it stopped has reset the flag,
-- then an executor that is settled runs, in one goroutine, exactly if the last call was Start.
pub patient-run :
    {s : State} {calls : List Call}
    → PatientRun new_state calls s
    → IsSettled s
    → (s.running ≡ wanted calls false) × (s.looping ≡ (if wanted calls false then 1 else 0))
patient-run {s} run settled =
    let e = rw (settled.0, settled.1) at (run-aim run) in
    let h = Run-IsSingle (forget run) new_state-IsSingle in (e, ground arith)
