-- ===== src/Shard/Steps/Tries.antt =====
-- How often an action that fails is tried again (RetryFailedAction and ExecuteRetry of
-- shard/engine.go).
use orchy.Base.{
  ℕ, zero, suc, ℤ, pos, int_eq, int64, ◌+ℤ◌, Text, text_eq, ==_refl, ==_refl, some, List, [], ◌∷◌,
  ◌≡◌,
}
use orchy.Base.Map.{Map, lookup, insert}
use orchy.Model.{ok, FlowContext, ActionDefinition}
use orchy.Action.{Action, base, Libs}
use orchy.Flow.{Flow}
use orchy.Shard.Storage.{Storage}
use orchy.Shard.Storage.Reliable.{Reliable}
use orchy.Shard.Container.{MetadataService, World}
use orchy.Shard.Effect.Retry.{tries}
use orchy.Shard.Requests.{action_failed, retry_due}
use orchy.Shard.Steps.Serve.{Event, requested}

-- The action fails, and its retry is due, so many times.
unfoldable pub rounds : Text → ℤ → ℕ → List Event
rounds name a zero = []
rounds name a (suc k) = requested (action_failed name a) ∷ requested (retry_due a) ∷ rounds name a k

module _ {S : Type 0} (st : Storage S) (rel : Reliable st) (md : MetadataService) (wf id : Text)
    (fl : Flow) (defined : md.get_flow wf id ≡ some (ok fl)) (lib : Libs) (name : Text) (a : ℤ)
    (act : Action) (known : lookup a fl.actions ≡ some act) (d : ActionDefinition)
    (registered : md.get_action_definition (base act).name ≡ ok d) where
  -- The context that is stored after some tries: only the counts of the current actions differ.
  pub record IsTried (c : FlowContext) (t : ℕ) (w : World S) : Type 0 where
    pub tried : FlowContext
    pub stored : rel.view w.storage wf id ≡ some tried
    pub others_same : tried ≡ record c { current_action_ids = tried.current_action_ids }
    pub count : tries tried a ≡ pos t

  abbrev once_more : FlowContext → FlowContext
  once_more c = record c {
    current_action_ids = insert a (int64 (tries c a +ℤ pos 1)) c.current_action_ids;
  }

  abbrev recounted : Map ℤ ℤ → FlowContext → FlowContext
  recounted m c = record c { current_action_ids = m }
