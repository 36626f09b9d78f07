-- ===== src/Metadata/Walk.antt =====
-- The recursion `walk` of metadata/service.go: the sets of actions whose execution ends a flow.
pub mod Total
pub mod Leaves
pub mod Extends
pub mod Fuel
pub mod Cycle
pub mod Ends
pub mod Reference
use orchy.Base.{ℕ, zero, suc, ℤ, int_eq, Text, Option, none, some, List, [], ◌∷◌, ◌++◌}
use orchy.Base.Map.{Map, lookup}
use orchy.Model.{NextMap}
use orchy.Action.{Action, base}
use orchy.Util.Slice.{merge}

-- `crashed` is a panic. The fuel bounds how deep the calls go; `out_of_fuel` means deeper than that.
pub data WalkResult : Type 0 where
  done : List (List ℤ) → WalkResult
  crashed out_of_fuel : WalkResult

infixl 10 ◌>>=◌
abbrev pub ◌>>=◌ : WalkResult → (List (List ℤ) → WalkResult) → WalkResult
done sets >>= f = f sets
crashed >>= f = crashed
out_of_fuel >>= f = out_of_fuel

-- The loop over the actions of one group; `call` is the recursive call.
unfoldable pub walk_group : (ℤ → WalkResult) → List ℤ → List (List ℤ) → WalkResult
unfolding merge
walk_group call [] final_out = done final_out
walk_group call (action ∷ rest) final_out =
    call action >>= λ out. walk_group call rest (merge out final_out)

-- One group of the loop over the next map. Of an empty group the first element is read.
unfoldable pub walk_branch : (ℤ → WalkResult) → Option (List ℤ) → WalkResult
unfolding walk_group
walk_branch call none = crashed
walk_branch call (some []) = crashed
walk_branch call (some (a ∷ rest)) = walk_group call (a ∷ rest) []

-- The loop over the next map.
unfoldable pub walk_branches :
    (ℤ → WalkResult) → Map Text (Option (List ℤ)) → List (List ℤ) → WalkResult
unfolding walk_branch
walk_branches call [] result = done result
walk_branches call ((event, group) ∷ rest) result =
    walk_branch call group >>= λ out. walk_branches call rest (result ++ out)

abbrev pub visit_action : (ℤ → WalkResult) → ℤ → NextMap → WalkResult
visit_action call id none = done ((id ∷ []) ∷ [])
visit_action call id (some groups) = walk_branches call groups []

-- A missing action is a nil interface, on which GetNext panics.
abbrev pub visit : (ℤ → WalkResult) → Option Action → WalkResult
visit call none = crashed
visit call (some act) = visit_action call (base act).id (base act).next_map

-- walk
unfoldable pub walk : Map ℤ Action → ℕ → ℤ → WalkResult
unfolding walk_branches lookup
walk actions zero root = out_of_fuel
walk actions (suc fuel) root =
    let call = λ (a : ℤ). walk actions fuel a in visit call (lookup root actions)
