-- ===== src/Cluster/Shards/Running.antt =====
-- What the executors are called to do by a rebalancing (cluster/cluster.go, shard/shard.go).
use orchy.Base.{
  ℤ, int_eq, Text, Bool, false, List, [], ◌∷◌, All, contains, ◌≡◌, refl, ◌∙◌, Bool-cases, inl, inr,
}
use orchy.Base.Map.{Map}
use orchy.Executor.Worker.Steps.{Call, start_call, stop_call}
use orchy.Executor.Worker.Patient.{wanted, wanted-append}
use orchy.Cluster.Shards.{Shard, each_executor, start_shard, stop_shard, rebalance}

abbrev pub AllExecutors : (List Call → Type 0) → Map Text (List Call) → Type 0
AllExecutors P m = All (λ (e : Text × List Call). P e.1) m

-- The last call to the executors is Start on the shards whose number is in the list, and Stop, or
-- there was none, on every other.
abbrev pub AskExactly : List ℤ → Map ℤ Shard → Type 0
AskExactly ids shards =
    All
      (λ (e : ℤ × Shard).
        AllExecutors (λ calls. wanted calls false ≡ contains ids e.0) e.1.executors)
      shards

last_only : (call : Call) (b : Bool) → wanted (call ∷ []) b ≡ wanted (call ∷ []) false
unfolding wanted
last_only start_call b = refl
last_only stop_call b = refl

called :
    (call : Call) (ex : Map Text (List Call))
    → AllExecutors (λ calls. wanted calls false ≡ wanted (call ∷ []) false) (each_executor call ex)
unfolding each_executor
called call [] = tt
called call ((name, calls) ∷ ex) =
    (wanted-append calls (call ∷ []) false ∙ last_only call (wanted calls false), called call ex)

pub rebalance-AskExactly :
    (ids : List ℤ) (shards : Map ℤ Shard) → AskExactly ids (rebalance ids shards)
unfolding rebalance start_shard stop_shard wanted
rebalance-AskExactly ids [] = tt
rebalance-AskExactly ids ((id, s) ∷ rest) = elim (Bool-cases (contains ids id)) [
  | inl e ↦ rw e (called start_call s.executors, rebalance-AskExactly ids rest)
  | inr e ↦ rw e (called stop_call s.executors, rebalance-AskExactly ids rest)
]
