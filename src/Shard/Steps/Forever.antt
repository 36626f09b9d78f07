-- ===== src/Shard/Steps/Forever.antt =====
-- An action that was executed stays executed (shard/engine.go, shard/flow.go).
use orchy.Base.{ℤ, int_eq, Text, true, some, List, ◌≡◌, refl, ◌∙◌, arith}
use orchy.Base.Map.{lookup}
use orchy.Model.{FlowContext, ok}
use orchy.Action.{base, Libs}
use orchy.Flow.{Flow}
use orchy.Shard.Storage.{Storage}
use orchy.Shard.Storage.Reliable.{Reliable}
use orchy.Shard.Container.{MetadataService, World}
use orchy.Shard.Machine.Moves.{lookup-executed}
use orchy.Shard.Effect.Read.{IsCurrent}
use orchy.Shard.Requests.{Request, serve}
use orchy.Shard.Requests.Guards.{target, serve-executed}
use orchy.Shard.Steps.Serve.{Event, run, run_own-Moves}
use orchy.Shard.Steps.Keeps.{Stored, Keeps, Moves-Stored}

-- The context lists the action as executed.
abbrev IsExecuted : ℤ → FlowContext → Type 0
IsExecuted k c = lookup k c.executed_actions ≡ some true

IsExecuted-Keeps : (fl : Flow) (k : ℤ) → Keeps fl (IsExecuted k)
IsExecuted-Keeps fl k = record {
  change = λ c s event x. x;
  count = λ c a x. x;
  move = λ c a event data_map resume act live there x.
      ground
        (arith, x, lookup-executed fl.terminal_actions (base act).next_map a event data_map c k);
}

module _ {S : Type 0} (st : Storage S) (rel : Reliable st) (md : MetadataService) (wf id : Text)
    (fl : Flow) (defined : md.get_flow wf id ≡ some (ok fl)) (lib : Libs) where
  -- For a storage that does not fail, and a flow that GetFlow returns and that its machine, if one
  -- is cached, runs:
  -- If a stored context lists an action as executed, then whatever is requested of the flow
  -- afterwards, with pauses and restarts between: a context that is stored for it then lists the
  -- action still, and any further request about that action writes nothing and records nothing.
  pub executed_forever :
      (es : List Event) (w : World S) (c c' : FlowContext) (k : ℤ) (r : Request)
      → IsCurrent wf id fl w
      → rel.view w.storage wf id ≡ some c
      → lookup k c.executed_actions ≡ some true
      → rel.view (run st md lib wf id es w).storage wf id ≡ some c'
      → target r ≡ some k
      → (lookup k c'.executed_actions ≡ some true)
        × ((serve st md lib wf id r (run st md lib wf id es w)).1.storage
            ≡ (run st md lib wf id es w).storage)
        × ((serve st md lib wf id r (run st md lib wf id es w)).1.records
            ≡ (run st md lib wf id es w).records)
  executed_forever es w c c' k r cur v x v' t =
      let w' = run st md lib wf id es w in
      let kept : Stored (IsExecuted k) (rel.view w'.storage wf id) =
        Moves-Stored fl (IsExecuted k) (IsExecuted-Keeps fl k)
          (run_own-Moves st rel md wf id fl defined lib es w cur) (rw v x) in
      let kept' : IsExecuted k c' = rw v' at kept in
      let law = rel.get_law wf id w'.storage in
      let (stays, silent) =
        serve-executed st md wf id w' c' (rw (law, v') refl) lib r k true t kept' in
      (kept', stays ∙ (rw law refl), silent)
