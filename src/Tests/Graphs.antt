-- ===== src/Tests/Graphs.antt =====
-- The theorems on MoveForward and on the sets of terminal actions.
use orchy.Base.{
  ℤ, pos, int_eq, int_beq_iff, text_eq, lit, true, none, some, [], contains, ◌==◌, ◌≡◌, ◌↔◌, ◌⊎◌,
  if◌then◌else◌, arith,
}
use orchy.Base.Map.{Map, lookup, insert}
use orchy.Base.Strconv.{itoa}
use orchy.Model.{running, completed}
use orchy.Model.Value.{end, get_field}
use orchy.Action.{Action}
use orchy.Shard.Machine.{move_context, next_actions}
use orchy.Shard.Machine.Moves.{move_context_books, output_of}
use orchy.Shard.Machine.Complete.{move_context_complete, EndIsReached}
use orchy.Tests.Flows.{context, order, first, second, actions, next_of_first}

pub two_actions :
    (a : ℤ) (act : Action)
    → lookup a actions ≡ some act
    → ((a ≡ pos 1) × (act ≡ first)) ⊎ ((a ≡ pos 2) × (act ≡ second))
unfolding lookup
two_actions a act h = ground (arith, int_beq_iff (pos 1) a, int_beq_iff (pos 2) a)

move_context_complete_example :
    ((((move_context order.terminal_actions next_of_first
          (pos 1)
          (lit "default")
          none
          (context running)).1
        ≡ true)
      ↔ EndIsReached order.terminal_actions
          (insert (pos 1) true (context running).executed_actions)))
    × ((move_context order.terminal_actions next_of_first
          (pos 1)
          (lit "default")
          none
          (context running)).0.state
        ≡ (if (move_context order.terminal_actions next_of_first
              (pos 1)
              (lit "default")
              none
              (context running)).1
            then completed
            else running))
    × ((move_context order.terminal_actions next_of_first
          (pos 1)
          (lit "default")
          none
          (context running)).2
        ≡ (if (move_context order.terminal_actions next_of_first
              (pos 1)
              (lit "default")
              none
              (context running)).1
            then []
            else next_actions next_of_first (lit "default")))
move_context_complete_example =
    move_context_complete order.terminal_actions next_of_first (pos 1) (lit "default") none
      (context running)

abbrev moved : Map ℤ ℤ
moved =
    (move_context order.terminal_actions next_of_first (pos 1) (lit "default") (some end)
      (context running)).0.current_action_ids

move_context_books_example :
    (lookup
        (pos 2)
        (move_context order.terminal_actions next_of_first
          (pos 1)
          (lit "default")
          (some end)
          (context running)).0.executed_actions
      ≡ (if pos 1 == pos 2 then some true else lookup (pos 2) (context running).executed_actions))
    × (lookup (pos 2) moved ≡ (
        if contains
          (move_context order.terminal_actions next_of_first
            (pos 1)
            (lit "default")
            (some end)
            (context running)).2
          (pos 2)
        then some (pos 1)
        else if pos 1 == pos 2
        then none
        else lookup (pos 2) (context running).current_action_ids))
    × (get_field
          (lit "1")
          (move_context order.terminal_actions next_of_first
            (pos 1)
            (lit "default")
            (some end)
            (context running)).0.context_data
        ≡ (if itoa (pos 1) == lit "1"
            then output_of (some end) (get_field (lit "1") (context running).context_data)
            else get_field (lit "1") (context running).context_data))
move_context_books_example =
    move_context_books order.terminal_actions next_of_first (pos 1) (lit "default") (some end)
      (context running) (pos 2) (lit "1")
