-- ===== src/Tests/Terminals.antt =====
-- The theorems on the terminal actions of a flow, and on the parameters of its system actions.
use mathlib.Core.List.{Memᴰ}
use orchy.Base.{
  ℤ, pos, int_eq, int_beq, text_beq, lit, true, none, some, List, [], ◌∷◌, All, ◌≡◌, ◌↔◌, refl,
}
use orchy.Base.Map.{lookup, insert}
use orchy.Base.Strconv.{equal_fold}
use orchy.Model.{ok, running, system, ActionDef}
use orchy.Model.Value.{end}
use orchy.Action.{base, to_action_type, new_base_action, new_delay_action}
use orchy.Flow.{Flow}
use orchy.Metadata.{build_action, build_actions, get_flow}
use orchy.Metadata.Graph.{get_flow_total}
use orchy.Metadata.Params.{Readable, build_actions-Readable}
use orchy.Metadata.Terminals.{get_flow-AreEnds, move_context-Ends}
use orchy.Metadata.Walk.Ends.{Ends, AreEnds}
use orchy.Metadata.Walk.Leaves.{IsSetOf, IsLeaf}
use orchy.Shard.Machine.{move_context}
use orchy.Shard.Machine.Complete.{IsExecuted}
use orchy.Tests.Flows.{libs, context, next_of_first}
use orchy.Tests.Workflows.{ordering, keeping, accepted, acyclic, rank, built}

abbrev found :
    (fl : Flow) × (get_flow (keeping ordering) (lit "order") (lit "f1") ≡ some (ok fl))
    × (fl.root_action ≡ pos 1)
    × (fl.actions ≡ built)
    × All (IsSetOf (IsLeaf built)) fl.terminal_actions
found =
    get_flow_total (keeping ordering) ordering (lit "order") (lit "f1") refl libs rank accepted
      acyclic

get_flow-AreEnds_example : AreEnds built (pos 1) found.0.terminal_actions
get_flow-AreEnds_example =
    get_flow-AreEnds (keeping ordering) ordering (lit "order") (lit "f1") refl libs found.0 accepted
      found.1

move_context-Ends_example :
    ((move_context found.0.terminal_actions next_of_first
        (pos 1)
        (lit "default")
        none
        (context running)).1
      ≡ true)
    ↔ ((s : List ℤ) × Ends built (pos 1) s
        × All (IsExecuted (insert (pos 1) true (context running).executed_actions)) s)
move_context-Ends_example =
    move_context-Ends (keeping ordering) ordering (lit "order") (lit "f1") refl libs found.0
      next_of_first (pos 1) (lit "default") none (context running) accepted found.1

-- A delay of five seconds.
abbrev pausing : ActionDef
pausing = record {
  id = pos 1;
  action_type = lit "system";
  name = lit "delay";
  input_params = end;
  next = none;
  expression = [];
  join = pos 0;
  delay_seconds = pos 5;
  event = [];
  timeout_seconds = pos 0;
}

paused_built : lookup (pos 1) (build_actions (pausing ∷ []) []) ≡ some (build_action pausing)
unfolding build_actions insert lookup int_beq
paused_built = refl

paused_system : (base (build_action pausing)).action_type ≡ system
unfolding build_action to_action_type new_base_action new_delay_action equal_fold text_beq
paused_system = refl

build_actions-Readable_example :
    (d : ActionDef) × Memᴰ d (pausing ∷ []) × (d.id ≡ pos 1) × Readable d (build_action pausing)
build_actions-Readable_example =
    build_actions-Readable (pausing ∷ []) (pos 1) (build_action pausing) paused_built paused_system
