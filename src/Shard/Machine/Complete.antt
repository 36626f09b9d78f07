-- ===== src/Shard/Machine/Complete.antt =====
-- When MoveForward completes a flow.
use mathlib.Core.List.{Memᴰ}
use orchy.Base.{
  ℤ, int_eq, Text, Bool, true, Option, some, List, [], ◌∷◌, ◌==◌, if◌then◌else◌, contains, All, ◌≡◌,
  refl, arith, ◌↔◌, inl, inr, Bool-cases,
}
use orchy.Base.Map.{Map, lookup, insert, keys}
use orchy.Util.Slice.{contains_each, contains_all}
use orchy.Util.Slice.Laws.{contains_all-eq-each}
use orchy.Model.{FlowContext, NextMap, completed}
use orchy.Model.Value.{Fields}
use orchy.Shard.Machine.{some_contained, is_complete, move_context, next_actions}

-- Is an action executed, by the map ExecutedActions?
abbrev pub IsExecuted : Map ℤ Bool → ℤ → Type 0
IsExecuted executed k = (b : Bool) × (lookup k executed ≡ some b)

lookup-contains : (k : ℤ) (m : Map ℤ Bool) → contains (keys m) k ≡ true → IsExecuted m k
unfolding contains keys lookup
lookup-contains k [] h = cc
lookup-contains k ((j, b) ∷ m) h = elim (Bool-cases (j == k)) [
  | inl e ↦ (b, rw e)
  | inr e ↦ let (b', p) = lookup-contains k m (ground arith) in (b', rw e p)
]

contains-lookup :
    (k : ℤ) (b : Bool) (m : Map ℤ Bool) → lookup k m ≡ some b → contains (keys m) k ≡ true
unfolding contains keys lookup
contains-lookup k b [] h = cc
contains-lookup k b ((j, b') ∷ m) h = ground (arith, contains-lookup k b m)

All-IsExecuted :
    (m : Map ℤ Bool) (group : List ℤ)
    → contains_each (keys m) group ≡ true
    → All (IsExecuted m) group
unfolding contains_each
All-IsExecuted m [] h = tt
All-IsExecuted m (k ∷ group) h =
    (lookup-contains k m (ground arith), All-IsExecuted m group (ground arith))

each_contained :
    (m : Map ℤ Bool) (group : List ℤ)
    → All (IsExecuted m) group
    → contains_each (keys m) group ≡ true
unfolding contains_each
each_contained m [] h = refl
each_contained m (k ∷ group) h = rw (contains-lookup k h.0.0 m h.0.1) (each_contained m group h.1)

-- Some group of terminal actions is executed whole.
abbrev pub EndIsReached : List (List ℤ) → Map ℤ Bool → Type 0
EndIsReached terminals executed =
    (group : List ℤ) × Memᴰ group terminals × All (IsExecuted executed) group

reached :
    (m : Map ℤ Bool) (terminals : List (List ℤ))
    → some_contained (keys m) terminals ≡ true
    → EndIsReached terminals m
unfolding some_contained
reached m [] h = cc
reached m (g ∷ gs) h = elim (Bool-cases (contains_all (keys m) g)) [
  | inl e ↦ (g, Memᴰ.head refl, All-IsExecuted m g (rw contains_all-eq-each at e))
  | inr e ↦
      let (group, inside, done) = reached m gs (ground arith) in (group, Memᴰ.tail inside, done)
]

contained :
    (m : Map ℤ Bool) (terminals : List (List ℤ)) (group : List ℤ)
    → Memᴰ group terminals
    → All (IsExecuted m) group
    → some_contained (keys m) terminals ≡ true
unfolding some_contained
contained m [] group inside done = elim inside [ ]
contained m (g ∷ gs) group (Memᴰ.head e) done =
    let whole : contains_all (keys m) g ≡ true =
      rw (← e, contains_all-eq-each) (each_contained m group done) in
    rw whole
contained m (g ∷ gs) group (Memᴰ.tail inside) done =
    ground (arith, contained m gs group inside done)

-- MoveForward reports the flow as complete exactly when, with the action counted as executed, some
-- group of terminal actions is executed whole. Then the state becomes completed and no action is to
-- be dispatched; otherwise the state stays, and the actions to dispatch are those of the event.
pub move_context_complete :
    (terminals : List (List ℤ)) (next : NextMap) (a : ℤ) (event : Text) (data_map : Option Fields)
    (c : FlowContext)
    → let after = move_context terminals next a event data_map c in
      ((after.1 ≡ true) ↔ EndIsReached terminals (insert a true c.executed_actions))
      × (after.0.state ≡ (if after.1 then completed else c.state))
      × (after.2 ≡ (if after.1 then [] else next_actions next event))
unfolding move_context is_complete
move_context_complete terminals next a event data_map c = (
  (
    λ h. reached (insert a true c.executed_actions) terminals (ground arith),
    λ e.
        let done = contained (insert a true c.executed_actions) terminals e.0 e.1 e.2 in
        rw done refl,
  ),
  ground arith,
  ground arith,
)
