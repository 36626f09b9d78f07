-- ===== src/Tests/Workflows.antt =====
-- The theorems on ValidateFlow and GetFlow.
use orchy.Base.{
  ℕ, ℤ, pos, int_eq, int_beq, int_beq_iff, text_beq, lit, Text, none, some, [], ◌∷◌, All, ◌==◌, ◌≡◌,
  ◌≢◌, ◌⊎◌, inl, inr, if◌then◌else◌, refl, arith,
}
use mathlib.Core.List.{Memᴰ}
use orchy.Base.Map.{Map, lookup, insert}
use orchy.Base.Strconv.{equal_fold}
use orchy.Model.{ok, ActionDef, Workflow, NextMap}
use orchy.Model.Value.{end}
use orchy.Action.{Action, to_action_type, new_base_action, validate_action_type, validate}
use orchy.Flow.{Flow, validate_state_handler}
use orchy.Metadata.{
  MetadataStorage, build_action, build_actions, all_actions, check_next, check_groups,
  check_targets, check_actions, check_built, validate_flow, get_flow,
}
use orchy.Metadata.Walk.{done, walk}
use orchy.Metadata.Walk.Leaves.{IsSetOf, IsLeaf}
use orchy.Metadata.Walk.Cycle.{Leads, one, walk-cycle}
use orchy.Metadata.Sound.{IsValid, validate_flow-IsValid}
use orchy.Metadata.Graph.{IsAcyclic, get_flow_total, get_flow-cycle}
use orchy.Tests.Flows.{libs, definition, first, second}

abbrev action : ℤ → Text → NextMap → ActionDef
action k name next = record {
  id = k;
  action_type = lit "user";
  name = name;
  input_params = end;
  next = next;
  expression = [];
  join = pos 0;
  delay_seconds = pos 0;
  event = [];
  timeout_seconds = pos 0;
}

abbrev next_of : ℤ → NextMap
next_of k = some ((lit "default", some (k ∷ [])) ∷ [])

-- Action 1, and after it action 2.
abbrev pub ordering : Workflow
ordering = record {
  name = lit "order";
  root_action = pos 1;
  actions = action (pos 1) (lit "charge") (next_of (pos 2)) ∷ action (pos 2) (lit "ship") none ∷ [];
  on_failure = [];
  on_success = lit "DELETE";
}

-- Action 1, and after it action 1.
abbrev looping : Workflow
looping = record {
  name = lit "loop";
  root_action = pos 1;
  actions = action (pos 1) (lit "charge") (next_of (pos 1)) ∷ [];
  on_failure = [];
  on_success = lit "NOOP";
}

abbrev pub keeping : Workflow → MetadataStorage
keeping wf = record {
  get_workflow_definition = λ name. ok wf;
  get_action_definition = λ name. ok definition;
}

pub accepted : validate_flow libs (keeping ordering) ordering ≡ ok tt
unfolding validate_flow validate_state_handler check_actions all_actions check_built build_actions
    check_next check_groups check_targets lookup insert validate_action_type validate build_action
    to_action_type new_base_action equal_fold int_beq text_beq
accepted = refl

validate_flow-IsValid_example : IsValid libs (keeping ordering) ordering
validate_flow-IsValid_example = validate_flow-IsValid libs (keeping ordering) ordering accepted

abbrev pub rank : ℤ → ℕ
rank a = if a == pos 1 then 1 else 0

abbrev pub built : Map ℤ Action
built = build_actions ordering.actions []

two_built :
    (a : ℤ) (act : Action)
    → lookup a built ≡ some act
    → ((a ≡ pos 1) × (act ≡ first)) ⊎ ((a ≡ pos 2) × (act ≡ second))
unfolding lookup build_actions build_action to_action_type new_base_action equal_fold insert int_beq
    text_beq
two_built a act h = ground (arith, int_beq_iff (pos 1) a, int_beq_iff (pos 2) a)

pub acyclic : IsAcyclic built rank
unfolding int_beq
acyclic = record {
  falls = λ a act h. elim (two_built a act h) [
    | inl (e, e') ↦ rw (e, e') ((omega arith, tt), tt)
    | inr (e, e') ↦ rw (e, e') tt
  ];
}

get_flow_total_example :
    (fl : Flow) × (get_flow (keeping ordering) (lit "order") (lit "f1") ≡ some (ok fl))
    × (fl.root_action ≡ pos 1)
    × (fl.actions ≡ built)
    × All (IsSetOf (IsLeaf built)) fl.terminal_actions
get_flow_total_example =
    get_flow_total (keeping ordering) ordering (lit "order") (lit "f1") refl libs rank accepted
      acyclic

abbrev looped : Map ℤ Action
looped = build_actions looping.actions []

to_itself : Leads looped (pos 1) (pos 1)
unfolding lookup build_actions build_action to_action_type new_base_action equal_fold insert int_beq
    text_beq
to_itself = one (record {
  act = build_action (action (pos 1) (lit "charge") (next_of (pos 1)));
  there = refl;
  groups = (lit "default", some (pos 1 ∷ [])) ∷ [];
  next = refl;
  event = lit "default";
  ids = pos 1 ∷ [];
  group = Memᴰ.head refl;
  listed = Memᴰ.head refl;
})

-- ValidateFlow accepts the loop.
loop_accepted : validate_flow libs (keeping looping) looping ≡ ok tt
unfolding validate_flow validate_state_handler check_actions all_actions check_built build_actions
    check_next check_groups check_targets lookup insert validate_action_type validate build_action
    to_action_type new_base_action equal_fold int_beq text_beq
loop_accepted = refl

get_flow-cycle_example : get_flow (keeping looping) (lit "loop") (lit "f1") ≡ none
get_flow-cycle_example =
    get_flow-cycle (keeping looping) looping (lit "loop") (lit "f1") refl (pos 1) (inl refl)
      to_itself

walk-cycle_example : walk looped 9 (pos 1) ≢ done ((pos 1 ∷ []) ∷ [])
walk-cycle_example = walk-cycle looped (pos 1) (pos 1) 9 ((pos 1 ∷ []) ∷ []) (inl refl) to_itself
