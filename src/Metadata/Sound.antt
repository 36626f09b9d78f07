-- ===== src/Metadata/Sound.antt =====
-- ValidateFlow of metadata/service.go: of an accepted workflow every action is built, and every next
-- action is there.
use mathlib.Core.List.{Memᴰ}
use orchy.Base.{
  ℤ, int_eq, int_beq_iff, Text, lit, Bool, true, some, List, [], ◌∷◌, ◌≡◌, refl, ◌∙◌, arith,
  Option-cases, ◌⊎◌, inl, inr, ==_refl,
}
use orchy.Base.Map.{Map, lookup, insert, lookup-insert, insert-cases}
use orchy.Model.{ok, ActionDef, Workflow}
use orchy.Action.{Action, base, Libs, validate}
use orchy.Flow.{validate_state_handler}
use orchy.Metadata.{
  MetadataStorage, build_action, build_actions, all_actions, check_next, check_actions,
  validate_flow, check_built,
}
use orchy.Metadata.Valid.{
  bind-eq-ok, build_action_lem, check_actions-head, IsDefined, IsNextOf, next_known, IsRegistered,
  checked_built,
}

-- An id that was met is no id of the definitions that follow, so that its action stays.
kept :
    (all : Map ℤ Bool) (defs : List ActionDef) (valid v : Map ℤ Text) (m : Map ℤ Action) (j : ℤ)
    (t : Text)
    → check_actions all defs valid ≡ ok v
    → lookup j valid ≡ some t
    → lookup j (build_actions defs m) ≡ lookup j m
unfolding build_actions
kept all [] valid v m j t h met = refl
kept all (d ∷ defs) valid v m j t h met =
    let (e, fresh, rest) = check_actions-head all d defs valid v h in
    ground (
      arith,
      int_beq_iff d.id j,
      lookup-insert d.id j (build_action d) m,
      lookup-insert d.id j (lit "") valid,
      kept all defs (insert d.id (lit "") valid) v (insert d.id (build_action d) m) j t rest,
    )

-- Every definition of an accepted list is built into the action under its id.
built :
    (all : Map ℤ Bool) (defs : List ActionDef) (valid v : Map ℤ Text) (m : Map ℤ Action)
    (d : ActionDef)
    → check_actions all defs valid ≡ ok v
    → Memᴰ d defs
    → lookup d.id (build_actions defs m) ≡ some (build_action d)
unfolding build_actions
built all [] valid v m d h inside = elim inside [ ]
built all (d' ∷ defs) valid v m d h (Memᴰ.head e) =
    let (_, fresh, rest) = check_actions-head all d' defs valid v h in
    rw (e) (
      kept all defs (insert d'.id (lit "") valid) v (insert d'.id (build_action d') m) d'.id
        (lit "") rest (ground (arith, lookup-insert d'.id d'.id (lit "") valid, ==_refl d'.id))
      ∙ ground (arith, lookup-insert d'.id d'.id (build_action d') m, ==_refl d'.id))
built all (d' ∷ defs) valid v m d h (Memᴰ.tail inside) =
    let (_, fresh, rest) = check_actions-head all d' defs valid v h in
    built all defs (insert d'.id (lit "") valid) v (insert d'.id (build_action d') m) d rest inside

-- A key of the set of all ids, or of the ids that were checked, is the id of a definition.
all_known :
    (defs : List ActionDef) (m : Map ℤ Bool) (k : ℤ) (b : Bool)
    → lookup k (all_actions defs m) ≡ some b
    → ((d : ActionDef) × Memᴰ d defs × (d.id ≡ k)) ⊎ (lookup k m ≡ some b)
unfolding all_actions
all_known [] m k b h = inr h
all_known (d ∷ defs) m k b h = elim (all_known defs (insert d.id true m) k b h) [
  | inl (d', inside, e) ↦ inl (d', Memᴰ.tail inside, e)
  | inr e ↦ elim (insert-cases d.id k true b m e) [
    | inl (same, _) ↦ inl (d, Memᴰ.head refl, same)
    | inr old ↦ inr old
  ]
]

-- Every action of the map was built from a definition.
pub from_definition :
    (defs : List ActionDef) (m : Map ℤ Action) (k : ℤ) (act : Action)
    → lookup k (build_actions defs m) ≡ some act
    → ((d : ActionDef) × Memᴰ d defs × (d.id ≡ k) × (act ≡ build_action d))
      ⊎ (lookup k m ≡ some act)
unfolding build_actions
from_definition [] m k act h = inr h
from_definition (d ∷ defs) m k act h =
    elim (from_definition defs (insert d.id (build_action d) m) k act h) [
      | inl (d', inside, e, e') ↦ inl (d', Memᴰ.tail inside, e, e')
      | inr e ↦ elim (insert-cases d.id k (build_action d) act m e) [
        | inl (same, made) ↦ inl (d, Memᴰ.head refl, same, made)
        | inr old ↦ inr old
      ]
    ]

-- Every definition of an accepted list went through the test of its next map.
next_checked :
    (all : Map ℤ Bool) (defs : List ActionDef) (valid v : Map ℤ Text) (d : ActionDef)
    → check_actions all defs valid ≡ ok v
    → Memᴰ d defs
    → check_next d.id all d.next ≡ ok tt
next_checked all [] valid v d h inside = elim inside [ ]
next_checked all (d' ∷ defs) valid v d h (Memᴰ.head e) =
    let (checked, fresh, rest) = check_actions-head all d' defs valid v h in rw e checked
next_checked all (d' ∷ defs) valid v d h (Memᴰ.tail inside) =
    let (checked, fresh, rest) = check_actions-head all d' defs valid v h in
    next_checked all defs (insert d'.id (lit "") valid) v d rest inside

-- A key of the map of the ids that were checked is the id of a definition.
valid_known :
    (all : Map ℤ Bool) (defs : List ActionDef) (valid v : Map ℤ Text) (k : ℤ) (t : Text)
    → check_actions all defs valid ≡ ok v
    → lookup k v ≡ some t
    → ((d : ActionDef) × Memᴰ d defs × (d.id ≡ k)) ⊎ (lookup k valid ≡ some t)
unfolding check_actions
valid_known all [] valid v k t h there = inr (ground (arith, h))
valid_known all (d ∷ defs) valid v k t h there =
    let (_, fresh, rest) = check_actions-head all d defs valid v h in
    elim (valid_known all defs (insert d.id (lit "") valid) v k t rest there) [
      | inl (d', inside, e) ↦ inl (d', Memᴰ.tail inside, e)
      | inr e ↦ elim (insert-cases d.id k (lit "") t valid e) [
        | inl (same, _) ↦ inl (d, Memᴰ.head refl, same)
        | inr old ↦ inr old
      ]
    ]

-- What the engine may rely on in the actions of a workflow that was accepted: their ids and edges.
pub record IsWired (wf : Workflow) : Type 0 where
  pub all_built :
      (d : ActionDef)
      → Memᴰ d wf.actions
      → lookup d.id (build_actions wf.actions []) ≡ some (build_action d)
  pub root_defined : IsDefined (build_actions wf.actions []) wf.root_action
  pub next_defined :
      (a : ℤ) (act : Action)
      → lookup a (build_actions wf.actions []) ≡ some act
      → ((base act).id ≡ a) × IsNextOf (IsDefined (build_actions wf.actions [])) (base act).next_map

-- And each action by itself: it passes its own test, and the workers know a user action.
pub record IsValid (lib : Libs) (storage : MetadataStorage) (wf : Workflow) : Type 0 where
  pub wired : IsWired wf
  pub validated :
      (a : ℤ) (act : Action)
      → lookup a (build_actions wf.actions []) ≡ some act
      → (validate lib act ≡ ok tt) × IsRegistered storage act (base act).action_type

module _ (lib : Libs) (storage : MetadataStorage) (wf : Workflow) where
  parts :
      validate_flow lib storage wf ≡ ok tt
      → (v : Map ℤ Text) × (check_actions (all_actions wf.actions []) wf.actions [] ≡ ok v)
        × ((t : Text) × (lookup wf.root_action v ≡ some t))
        × (check_built lib storage (build_actions wf.actions []) ≡ ok tt)
  unfolding validate_flow
  parts h =
      let (_, _, h1) = bind-eq-ok (validate_state_handler wf.on_failure) _ h in
      let (_, _, h2) = bind-eq-ok (validate_state_handler wf.on_success) _ h1 in
      let (v, checked, h3) =
        bind-eq-ok (check_actions (all_actions wf.actions []) wf.actions []) _ h2 in
      elim (Option-cases (lookup wf.root_action v)) [
        | inl e ↦ absurd (ground (arith, h3))
        | inr (t, there) ↦ (v, checked, (t, there), rw there at h3)
      ]

  abbrev actions : Map ℤ Action
  actions = build_actions wf.actions []

  module _ (v : Map ℤ Text)
      (checked : check_actions (all_actions wf.actions []) wf.actions [] ≡ ok v) where
    defined :
        {V : Type 0} {x : V} {k : ℤ}
        → ((d : ActionDef) × Memᴰ d wf.actions × (d.id ≡ k)) ⊎ (lookup k [] ≡ some x)
        → IsDefined actions k
    unfolding lookup
    defined (inl (d, inside, e)) = (
      build_action d,
      rw (← e) (built (all_actions wf.actions []) wf.actions [] v [] d checked inside),
    )
    defined (inr e) = cc

    next_of :
        (a : ℤ) (act : Action)
        → ((d : ActionDef) × Memᴰ d wf.actions × (d.id ≡ a) × (act ≡ build_action d))
          ⊎ (lookup a [] ≡ some act)
        → ((base act).id ≡ a) × IsNextOf (IsDefined actions) (base act).next_map
    unfolding lookup
    next_of a act (inr e) = cc
    next_of a act (inl (d, inside, e, made)) =
        let next =
          next_known (all_actions wf.actions []) (IsDefined actions)
            (λ k b known. defined (all_known wf.actions [] k b known)) d.id d.next
            (next_checked (all_actions wf.actions []) wf.actions [] v d checked inside) in
        (ground (arith, made, e, build_action_lem d), rw (made, (build_action_lem d).1) next)

  -- ValidateFlow accepts a workflow only if no two actions have one id, so that GetFlow builds each
  -- action under its own id; if the root action is defined; and if every next map is nil or has a
  -- key, and lists defined actions only; if every action passes its own test; and if every user
  -- action is registered.
  pub validate_flow-IsValid : validate_flow lib storage wf ≡ ok tt → IsValid lib storage wf
  validate_flow-IsValid h =
      let (v, checked, (t, there), built_checked) = parts h in
      record {
        validated = λ a act e.
            checked_built lib storage (build_actions wf.actions []) a act built_checked e;
        wired = record {
          all_built =
              λ d inside. built (all_actions wf.actions []) wf.actions [] v [] d checked inside;
          root_defined = defined v checked (
              valid_known (all_actions wf.actions []) wf.actions [] v wf.root_action t checked
                there);
          next_defined = λ a act e. next_of v checked a act (from_definition wf.actions [] a act e);
        };
      }
