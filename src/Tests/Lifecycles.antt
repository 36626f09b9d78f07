-- ===== src/Tests/Lifecycles.antt =====
-- The theorems on the executors' Start and Stop.
use orchy.Base.{ℕ, ◌≤◌, text_eq, true, false, if◌then◌else◌, List, [], ◌∷◌, ◌≡◌, refl, arith}
use orchy.Executor.Worker.Steps.{
  State, sending, Call, start_call, stop_call, Step, begin_start, end_start, begin_stop, receive,
  leave, Run, rest, then_step, new_state, IsSettled, IsSingle, new_state-run,
}
use orchy.Executor.Worker.Patient.{PatientRun, patient_rest, patient_step, wanted, patient-run}
use orchy.Executor.Worker.Races.{stop-races, running_state}

-- Start, and then Stop, each to its end.
stopped_again : PatientRun new_state (start_call ∷ stop_call ∷ []) new_state
stopped_again =
    patient_step
      (patient_step
        (patient_step
          (patient_step (patient_step patient_rest refl (begin_start refl refl)) tt
            (end_start refl))
          refl (begin_stop refl refl))
        tt (receive 0 refl refl))
      tt (leave 0 refl)

patient-run_example :
    (false ≡ wanted (start_call ∷ stop_call ∷ []) false)
    × (◌≡◌ {A = ℕ} 0 (if wanted (start_call ∷ stop_call ∷ []) false then 1 else 0))
patient-run_example = patient-run stopped_again (refl, refl)

-- Start, up to the flag.
started : Run new_state (start_call ∷ []) running_state
started = then_step (then_step rest (begin_start refl refl)) (end_start refl)

new_state-run_example : (1 ≤ 1) × (IsSettled running_state → ◌≡◌ {A = ℕ} 1 (if true then 1 else 0))
new_state-run_example = new_state-run started

running-IsSingle : IsSingle running_state
running-IsSingle = ground arith

stop-races_example :
    ((t : State) × Run running_state (stop_call ∷ start_call ∷ []) t
      × IsSettled t
      × (t.running ≡ false)
      × (t.looping ≡ 0))
    × ((t : State) × Run running_state (stop_call ∷ stop_call ∷ []) t
        × (t.caller ≡ sending)
        × ((u : State) (calls : List Call) → Step t calls u → ⊥))
stop-races_example = stop-races running_state running-IsSingle (refl, refl) refl
