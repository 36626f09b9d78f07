-- ===== src/Flow.antt =====
-- flow/flow.go.
use orchy.Base.{ℤ, Text, lit, Bool, true, false, ◌||◌, if◌then◌else◌, List, [], ◌∷◌}
use orchy.Base.Strconv.{equal_fold}
use orchy.Base.Map.{Map}
use orchy.Action.{Action}
use orchy.Model.{Result, ok, err, invalid_state_handler}

-- flow.Statehandler is a string.
abbrev pub Statehandler : Type 0
Statehandler = Text

abbrev pub delete_handler : Statehandler
delete_handler = lit "DELETE"

abbrev pub noop_handler : Statehandler
noop_handler = lit "NOOP"

-- len(s) == 0
abbrev pub is_empty : Text → Bool
is_empty [] = true
is_empty (c ∷ s) = false

-- ValidateStateHandler
unfoldable pub validate_state_handler : Text → Result (Unit {0})
unfolding equal_fold
validate_state_handler st =
    if is_empty st || (equal_fold st delete_handler || equal_fold st noop_handler)
    then ok tt
    else err (invalid_state_handler st)

-- flow.Flow
pub record Flow : Type 0 where
  pub id : Text
  pub root_action : ℤ
  pub actions : Map ℤ Action
  pub failure_handler : Statehandler
  pub success_handler : Statehandler
  pub terminal_actions : List (List ℤ)
