-- ===== src/Shard/Machine/Moves.antt =====
-- The bookkeeping of MoveForward in shard/flow.go.
use orchy.Base.{
  ℤ, pos, int_eq, Text, text_eq, lit, Bool, true, if◌then◌else◌, Option, none, some, List, [], ◌∷◌,
  ◌==◌, contains, ◌≡◌, refl, arith,
}
use orchy.Base.Map.{Map, lookup, insert, delete, lookup-insert, lookup-delete}
use orchy.Base.Strconv.{itoa}
use orchy.Model.{FlowContext, NextMap}
use orchy.Model.Value.{Fields, Value, object, field, end, get_field, get_field-set_field}
use orchy.Shard.Machine.{add_current, record_output, move_context, next_actions}

-- Every action of the list becomes current with the count 1, and the others stay.
pub lookup-add_current :
    (ids : List ℤ) (j : ℤ) (m : Map ℤ ℤ)
    → lookup j (add_current ids m) ≡ (if contains ids j then some (pos 1) else lookup j m)
unfolding add_current contains
lookup-add_current [] j m = refl
lookup-add_current (k ∷ ids) j m =
    ground (arith, lookup-add_current ids j (insert k (pos 1) m), lookup-insert k j (pos 1) m)

-- What is stored under the number of an action whose output may be a nil map.
abbrev pub output_of : Option Fields → Option Value → Option Value
output_of none old = old
output_of (some output) old = some (object (field (lit "output") (object output) end))

get_field-record_output :
    (a : ℤ) (data_map : Option Fields) (k : Text) (m : Fields)
    → get_field k (record_output a data_map m)
      ≡ (if itoa a == k then output_of data_map (get_field k m) else get_field k m)
unfolding record_output
get_field-record_output a none k m = ground arith
get_field-record_output a (some output) k m =
    get_field-set_field (itoa a) k (object (field (lit "output") (object output) end)) m

module _ (terminals : List (List ℤ)) (next : NextMap) (a : ℤ) (event : Text)
    (data_map : Option Fields) (c : FlowContext) where
  abbrev after : FlowContext × Bool × List ℤ
  after = move_context terminals next a event data_map c

  -- The action, and it alone, becomes executed.
  pub lookup-executed :
      (j : ℤ)
      → lookup j after.0.executed_actions
        ≡ (if a == j then some true else lookup j c.executed_actions)
  unfolding move_context
  lookup-executed j = ground (arith, lookup-insert a j true c.executed_actions)

  -- It stops being current, and if the flow goes on, the actions to dispatch become current.
  pub lookup-current :
      (j : ℤ)
      → lookup j after.0.current_action_ids ≡ (
          if contains after.2 j
          then some (pos 1)
          else if a == j
          then none
          else lookup j c.current_action_ids)
  unfolding move_context contains
  lookup-current j = ground (
    arith,
    lookup-delete a j c.current_action_ids,
    lookup-add_current (next_actions next event) j (delete a c.current_action_ids),
  )

  pub get_field-output :
      (k : Text)
      → get_field k after.0.context_data ≡ (
          if itoa a == k
          then output_of data_map (get_field k c.context_data)
          else get_field k c.context_data)
  unfolding move_context
  get_field-output k = ground (arith, get_field-record_output a data_map k c.context_data)

  -- MoveForward marks the action, and it alone, as executed; it takes the action off the current
  -- ones and makes the actions to dispatch current with the count 1; and it stores the action's
  -- output, if there is one, under the action's number. All else in these maps stays.
  pub move_context_books :
      (j : ℤ) (k : Text)
      → (lookup j after.0.executed_actions
          ≡ (if a == j then some true else lookup j c.executed_actions))
        × (lookup j after.0.current_action_ids ≡ (
            if contains after.2 j
            then some (pos 1)
            else if a == j
            then none
            else lookup j c.current_action_ids))
        × (get_field k after.0.context_data ≡ (
            if itoa a == k
            then output_of data_map (get_field k c.context_data)
            else get_field k c.context_data))
  move_context_books j k = (lookup-executed j, lookup-current j, get_field-output k)
