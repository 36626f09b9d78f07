-- ===== src/Shard/Steps/Outputs.antt =====
-- The output of an action that was executed is never overwritten (shard/flow.go, shard/engine.go).
use orchy.Base.{
  ℤ, int_eq, Text, text_eq, text_beq_iff, Bool, true, false, Option, some, List, ◌==◌, ◌≡◌, refl,
  arith, ap,
}
use orchy.Base.Map.{lookup}
use orchy.Base.Strconv.{itoa}
use orchy.Base.Strconv.Decimal.{IsInt64, itoa-injective}
use orchy.Model.{FlowContext, ok}
use orchy.Model.Value.{Value, get_field}
use orchy.Action.{Action, base, Libs}
use orchy.Flow.{Flow}
use orchy.Shard.Storage.{Storage}
use orchy.Shard.Storage.Reliable.{Reliable}
use orchy.Shard.Container.{MetadataService, World}
use orchy.Shard.Machine.Moves.{lookup-executed, get_field-output}
use orchy.Shard.Effect.{is_ignored}
use orchy.Shard.Effect.Read.{IsCurrent}
use orchy.Shard.Steps.Serve.{Event, run, run_own-Moves}
use orchy.Shard.Steps.Keeps.{Keeps, Moves-Stored}

-- The context lists the action as executed, and its data hold `o` under the action's number.
abbrev HasOutput : ℤ → Option Value → FlowContext → Type 0
HasOutput k o c =
    (lookup k c.executed_actions ≡ some true) × (get_field (itoa k) c.context_data ≡ o)

module _ (fl : Flow) (fit : (a : ℤ) (act : Action) → lookup a fl.actions ≡ some act → IsInt64 a)
    (k : ℤ) (small : IsInt64 k) (out : Option Value) where
  -- The action whose result comes is another one, and so is its number as a text.
  other_key :
      (c : FlowContext) (a : ℤ) (resume : Bool) (act : Action)
      → is_ignored c a resume ≡ false
      → lookup a fl.actions ≡ some act
      → lookup k c.executed_actions ≡ some true
      → (itoa a == itoa k) ≡ false
  other_key c a resume act live there done = ground (
    arith,
    text_beq_iff (itoa a) (itoa k),
    ap (λ j. lookup j c.executed_actions),
    itoa-injective a k (fit a act there) small,
  )

  HasOutput-Keeps : Keeps fl (HasOutput k out)
  HasOutput-Keeps = record {
    change = λ c s event x. x;
    count = λ c a x. x;
    move = λ c a event data_map resume act live there x. (
      ground (
        arith,
        x.0,
        lookup-executed fl.terminal_actions (base act).next_map a event data_map c k,
      ),
      ground (
        arith,
        x.1,
        other_key c a resume act live there x.0,
        get_field-output fl.terminal_actions (base act).next_map a event data_map c (itoa k),
      ),
    );
  }

module _ {S : Type 0} (st : Storage S) (rel : Reliable st) (md : MetadataService) (wf id : Text)
    (fl : Flow) (defined : md.get_flow wf id ≡ some (ok fl)) (lib : Libs) where
  -- For a storage that does not fail, and a flow that GetFlow returns and that its machine, if one
  -- is cached, runs:
  -- If the ids of the flow's actions are int64, and a stored context lists an action as executed, then
  -- whatever is requested of the flow afterwards, with pauses and restarts between: a context that is
  -- stored for it then holds the same under that action's number.
  pub output_forever :
      (es : List Event) (w : World S) (c c' : FlowContext) (k : ℤ)
      → ((a : ℤ) (act : Action) → lookup a fl.actions ≡ some act → IsInt64 a)
      → IsInt64 k
      → IsCurrent wf id fl w
      → rel.view w.storage wf id ≡ some c
      → lookup k c.executed_actions ≡ some true
      → rel.view (run st md lib wf id es w).storage wf id ≡ some c'
      → get_field (itoa k) c'.context_data ≡ get_field (itoa k) c.context_data
  output_forever es w c c' k fit small cur v x v' =
      let out = get_field (itoa k) c.context_data in
      let kept =
        Moves-Stored fl (HasOutput k out) (HasOutput-Keeps fl fit k small out)
          (run_own-Moves st rel md wf id fl defined lib es w cur) (rw v (x, refl)) in
      let kept' : HasOutput k out c' = rw v' at kept in kept'.1
