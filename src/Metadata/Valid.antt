-- ===== src/Metadata/Valid.antt =====
-- What ValidateFlow of metadata/service.go guarantees of a workflow that it accepts.
use orchy.Base.{
  ℤ, int_eq, Text, text_eq, lit, Bool, Option, none, some, List, [], ◌∷◌, All, ◌≡◌, refl, arith,
  Option-cases, Bool-cases, ◌==◌, inl, inr,
}
use orchy.Base.Map.{Map, lookup, insert}
use orchy.Model.{
  Result, ok, err, ◌>>=◌, ActionDef, NextMap, ActionType, system, user, ActionDefinition,
  Result-cases,
}
use orchy.Action.{Action, base, Libs, validate, validate_action_type}
use orchy.Metadata.{
  build_action, check_targets, check_groups, check_next, check_actions, MetadataStorage,
  check_registered, check_built,
}

-- A successful call, and then the rest.
pub bind-eq-ok :
    {X Y : Type 0} {y : Y} (check : Result X) (rest : X → Result Y)
    → (check >>= rest) ≡ ok y
    → (x : X) × (check ≡ ok x) × (rest x ≡ ok y)
bind-eq-ok (err problem) rest h = cc
bind-eq-ok (ok x) rest h = (x, refl, h)

-- The built action has the definition's id and next map.
pub build_action_lem :
    (d : ActionDef)
    → ((base (build_action d)).id ≡ d.id) × ((base (build_action d)).next_map ≡ d.next)
unfolding build_action
build_action_lem d = ground arith

abbrev pub IsDefined : Map ℤ Action → ℤ → Type 0
IsDefined actions k = (act : Action) × (lookup k actions ≡ some act)

-- A group of next actions is a list of defined actions.
abbrev pub IsGroupOf : (ℤ → Type 0) → Option (List ℤ) → Type 0
IsGroupOf P none = ⊥
IsGroupOf P (some ids) = All P ids

-- A next map is nil, or has a key, and its values are lists of defined actions.
abbrev pub IsNextOf : (ℤ → Type 0) → NextMap → Type 0
IsNextOf P none = Unit
IsNextOf P (some []) = ⊥
IsNextOf P (some (g ∷ groups)) = All (λ (e : Text × Option (List ℤ)). IsGroupOf P e.1) (g ∷ groups)

module _ (all : Map ℤ Bool) (P : ℤ → Type 0)
    (known : (k : ℤ) (b : Bool) → lookup k all ≡ some b → P k) where
  targets_known : (id : ℤ) (ids : List ℤ) → check_targets id all ids ≡ ok tt → All P ids
  unfolding check_targets
  targets_known id [] h = tt
  targets_known id (k ∷ ids) h = elim (Option-cases (lookup k all)) [
    | inl e ↦ absurd (ground arith)
    | inr (b, e) ↦ (known k b e, targets_known id ids (ground arith))
  ]

  groups_known :
      (id : ℤ) (groups : Map Text (Option (List ℤ)))
      → check_groups id all groups ≡ ok tt
      → All (λ (e : Text × Option (List ℤ)). IsGroupOf P e.1) groups
  unfolding check_groups
  groups_known id [] h = tt
  groups_known id ((event, none) ∷ groups) h = cc
  groups_known id ((event, some v) ∷ groups) h =
      let (u, e, rest) = bind-eq-ok (check_targets id all v) (λ _. check_groups id all groups) h in
      (targets_known id v e, groups_known id groups rest)

  pub next_known : (id : ℤ) (next : NextMap) → check_next id all next ≡ ok tt → IsNextOf P next
  unfolding check_next
  next_known id none h = tt
  next_known id (some []) h = cc
  next_known id (some (g ∷ groups)) h = groups_known id (g ∷ groups) h

-- What an accepted definition went through, beside the rest of the loop.
pub check_actions-head :
    (all : Map ℤ Bool) (d : ActionDef) (defs : List ActionDef) (valid v : Map ℤ Text)
    → check_actions all (d ∷ defs) valid ≡ ok v
    → (check_next d.id all d.next ≡ ok tt)
      × (lookup d.id valid ≡ none)
      × (check_actions all defs (insert d.id (lit "") valid) ≡ ok v)
unfolding check_actions
check_actions-head all d defs valid v h =
    let (u, e, rest) = bind-eq-ok (check_next d.id all d.next) _ h in
    elim (Option-cases (lookup d.id valid)) [
      | inl fresh ↦
          let (u', e', last) =
            bind-eq-ok (validate_action_type d.action_type)
              (λ _. check_actions all defs (insert d.id (lit "") valid)) (rw fresh at rest) in
          (e, fresh, last)
      | inr (t, old) ↦ absurd (ground (arith, rest))
    ]

-- A user action is registered.
abbrev pub IsRegistered : MetadataStorage → Action → ActionType → Type 0
IsRegistered storage act system = Unit
IsRegistered storage act user =
    (d : ActionDefinition) × (storage.get_action_definition (base act).name ≡ ok d)

module _ (lib : Libs) (storage : MetadataStorage) where
  registered :
      (act : Action) (at : ActionType)
      → check_registered lib storage act at ≡ ok tt
      → IsRegistered storage act at
  registered act system h = tt
  registered act user h = elim (Result-cases (storage.get_action_definition (base act).name)) [
    | inl (e, failed) ↦ absurd (ground (arith, h))
    | inr found ↦ found
  ]

  pub checked_built :
      (m : Map ℤ Action) (a : ℤ) (act : Action)
      → check_built lib storage m ≡ ok tt
      → lookup a m ≡ some act
      → (validate lib act ≡ ok tt) × IsRegistered storage act (base act).action_type
  unfolding check_built lookup
  checked_built [] a act h there = cc
  checked_built ((id, act') ∷ m) a act h there =
      let (_, e, h1) = bind-eq-ok (validate lib act') _ h in
      let (_, e', h2) =
        bind-eq-ok (check_registered lib storage act' (base act').action_type) _ h1 in
      elim (Bool-cases (id == a)) [
        | inl same ↦
            let made : act' ≡ act = ground (arith, same, there) in
            rw (← made) (e, registered act' (base act').action_type e')
        | inr other ↦ checked_built m a act h2 (rw other at there)
      ]
