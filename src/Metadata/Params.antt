-- ===== src/Metadata/Params.antt =====
-- The parameters of the actions that GetFlow builds (metadata/service.go), as ExecuteSystemAction of
-- shard/engine.go reads them: the type assertions on them cannot fail.
use mathlib.Core.List.{Memᴰ}
use orchy.Base.{
  sym, ◌∙◌, arith, ℤ, int_eq, text_eq, text_beq, lit, some, List, [], ◌≡◌, refl, inl, inr,
}
use orchy.Base.Map.{lookup, insert}
use orchy.Base.Strconv.{equal_fold, fold_case}
use orchy.Model.{ActionDef, system}
use orchy.Action.{
  Action, base, seconds, to_action_type, new_base_action, new_delay_action, new_wait_action,
}
use orchy.Metadata.{build_action, build_actions}
use orchy.Metadata.Sound.{from_definition}
use orchy.Shard.Engine.System.{as_duration, as_text}

-- What the engine reads of a system action, by its name.
abbrev pub Readable : ActionDef → Action → Type 0
Readable d act =
    ((base act).name ≡ lit "delay"
      → as_duration (lookup (lit "delay") (base act).params) ≡ some (seconds d.delay_seconds))
    × ((base act).name ≡ lit "wait"
        → (as_duration (lookup (lit "timeout") (base act).params)
            ≡ some (seconds d.timeout_seconds))
          × (as_text (lookup (lit "event") (base act).params) ≡ some d.event))

delay_params :
    (d : ActionDef)
    → d.name ≡ lit "delay"
    → to_action_type d.action_type ≡ system
    → as_duration (lookup (lit "delay") (base (build_action d)).params)
      ≡ some (seconds d.delay_seconds)
unfolding build_action equal_fold fold_case text_beq new_base_action new_delay_action insert lookup
delay_params d h t = rw (build_action, h, t) refl

wait_params :
    (d : ActionDef)
    → d.name ≡ lit "wait"
    → to_action_type d.action_type ≡ system
    → (as_duration (lookup (lit "timeout") (base (build_action d)).params)
        ≡ some (seconds d.timeout_seconds))
      × (as_text (lookup (lit "event") (base (build_action d)).params) ≡ some d.event)
unfolding build_action equal_fold fold_case text_beq new_base_action new_wait_action insert lookup
wait_params d h t = rw (build_action, h, t) (refl, refl)

built_type :
    (d : ActionDef)
    → ((base (build_action d)).action_type ≡ to_action_type d.action_type)
      × ((base (build_action d)).name ≡ d.name)
unfolding build_action new_base_action
built_type d = ground arith

build_action-Readable :
    (d : ActionDef) → (base (build_action d)).action_type ≡ system → Readable d (build_action d)
build_action-Readable d h =
    let (t, n) = built_type d in
    ((λ e. delay_params d (sym n ∙ e) (sym t ∙ h)), (λ e. wait_params d (sym n ∙ e) (sym t ∙ h)))

-- Every system action that GetFlow builds was built from a definition under its id; if its name is
-- `delay` or `wait`, the parameters that the engine then reads are there and have the types that it
-- asserts: the durations of the definition in nanoseconds, and its event.
pub build_actions-Readable :
    (defs : List ActionDef) (a : ℤ) (act : Action)
    → lookup a (build_actions defs []) ≡ some act
    → (base act).action_type ≡ system
    → (d : ActionDef) × Memᴰ d defs × (d.id ≡ a) × Readable d act
unfolding lookup
build_actions-Readable defs a act there h = elim (from_definition defs [] a act there) [
  | inl (d, inside, e, made) ↦ (d, inside, e, rw made (build_action-Readable d (rw made at h)))
  | inr e ↦ cc
]
