-- ===== src/Shard/Effect/Retry.antt =====
-- A failed action: RetryFailedAction and ExecuteRetry of shard/engine.go.
use orchy.Base.{
  ℕ, ◌*◌, ◌+◌, ◌<◌, ◌^◌, ◌*ℤ◌, int64-pos, ℤ, pos, int_eq, int64, ◌+ℤ◌, ltb_ℤ, Text, text_eq,
  ==_refl, true, false, List, [], ◌∷◌, contains, none, some, ◌≡◌, refl, arith, if◌then◌else◌,
}
use orchy.Base.Map.{lookup, insert}
use orchy.Model.{
  ok, FlowContext, failed, ActionDefinition, RetryPolicy, fixed, backoff, other_policy,
  ActionExecutionRequest,
}
use orchy.Action.{Action, base, seconds}
use orchy.Flow.{Flow}
use orchy.Shard.Storage.{Storage}
use orchy.Shard.Storage.Reliable.{Reliable, same}
use orchy.Shard.Machine.{FlowStateMachine, is_terminal, validate}
use orchy.Shard.Container.{MetadataService, World, call, store}
use orchy.Shard.Engine.{mark_failed, request, requests, save_context_and_dispatch_action}
use orchy.Shard.Engine.Delays.{or_zero, retry_after, retry_failed_action, execute_retry}
use orchy.Shard.Effect.{after_change}
use orchy.Shard.Effect.Read.{IsCurrent, get_lem, insert-IsCurrent}
use orchy.Shard.Effect.Change.{view-change_state_with_event}

-- May the action still be executed?
pub record IsOpen (c : FlowContext) (a : ℤ) : Type 0 where
  pub live : is_terminal c.state ≡ false
  pub fresh : lookup a c.executed_actions ≡ none

pub validate_open : (m : FlowStateMachine) (a : ℤ) → IsOpen m.context a → validate m a ≡ ok tt
unfolding validate
validate_open m a o = ground arith

-- The count of the tries of a current action.
abbrev pub tries : FlowContext → ℤ → ℤ
tries c a = or_zero (lookup a c.current_action_ids)

-- The delay before the next try, for an action that was tried `t` times.
abbrev pub nanoseconds : RetryPolicy → ℕ → ℕ → ℕ
nanoseconds fixed s t = s * 1_000_000_000
nanoseconds backoff s t = s * (t + 1) * 1_000_000_000
nanoseconds (other_policy p) s t = 0

pos-times : (a b : ℕ) → pos a *ℤ pos b ≡ pos (a * b)
unfolding ◌*ℤ◌
pos-times a b = ground arith

pub pos-next : (t : ℕ) → pos t +ℤ pos 1 ≡ pos (t + 1)
unfolding ◌+ℤ◌
pos-next t = ground arith

seconds-pos : (n : ℕ) → n * 1_000_000_000 < 2 ^ 63 → seconds (pos n) ≡ pos (n * 1_000_000_000)
unfolding seconds
seconds-pos n low = rw (pos-times n 1_000_000_000) (int64-pos (n * 1_000_000_000) low)

by_policy :
    (p : RetryPolicy) (s t : ℕ)
    → s * (t + 1) * 1_000_000_000 < 2 ^ 63
    → t + 1 < 2 ^ 63
    → elim p [
      | fixed ↦ seconds (pos s)
      | backoff ↦ seconds (int64 (pos s *ℤ int64 (pos t +ℤ pos 1)))
      | other_policy q ↦ pos 0
    ]
      ≡ pos (nanoseconds p s t)
by_policy fixed s t low low'' = seconds-pos s (omega arith)
by_policy backoff s t low low'' =
    rw
      (
        pos-next t,
        int64-pos (t + 1) low'',
        pos-times s (t + 1),
        int64-pos (s * (t + 1)) (omega arith),
      )
      (seconds-pos (s * (t + 1)) low)
by_policy (other_policy q) s t low low'' = refl

retry_after-eq :
    (d : ActionDefinition) (s t : ℕ)
    → d.retry_after_seconds ≡ pos s
    → s * (t + 1) * 1_000_000_000 < 2 ^ 63
    → t + 1 < 2 ^ 63
    → retry_after d (pos t) ≡ pos (nanoseconds d.retry_policy s t)
unfolding retry_after
retry_after-eq d s t e low low'' = rw e (by_policy d.retry_policy s t low low'')

module _ {S : Type 0} (st : Storage S) (rel : Reliable st) (md : MetadataService) (wf id : Text)
    (fl : Flow) (defined : md.get_flow wf id ≡ some (ok fl)) (w : World S) (c : FlowContext)
    (name : Text) (a : ℤ) (act : Action) (d : ActionDefinition) (cur : IsCurrent wf id fl w)
    (v : rel.view w.storage wf id ≡ some c) (open_action : IsOpen c a)
    (known : lookup a fl.actions ≡ some act)
    (registered : md.get_action_definition (base act).name ≡ ok d) where
  pub retry_failed_action-retry :
      ltb_ℤ (tries c a) d.retry_count ≡ true
      → (retry_failed_action st md wf id name a w).1.storage
        ≡ (st.retry wf id name a (retry_after d (tries c a)) w.storage).1
  unfolding retry_failed_action call
  retry_failed_action-retry more =
      let (m, w', got, ec, ef, es, em) = get_lem st rel md wf id fl defined w c cur v in
      rw got
        (ground (arith, validate_open m a (rw ec open_action), ec, ef, es, known, registered, more))

  -- For a storage that does not fail, and a flow that GetFlow returns and that its machine, if one
  -- is cached, runs:
  -- While the tries are fewer than the definition's retry count, RetryFailedAction only puts the
  -- action into the retry queue. The delay in nanoseconds is, without overflow: the definition's
  -- seconds for the policy FIXED; these times the number of the next try for BACKOFF; and 0 for a
  -- policy of another name.
  pub retry_failed_action-retries :
      (s t : ℕ)
      → d.retry_after_seconds ≡ pos s
      → tries c a ≡ pos t
      → s * (t + 1) * 1_000_000_000 < 2 ^ 63
      → t + 1 < 2 ^ 63
      → ltb_ℤ (pos t) d.retry_count ≡ true
      → (retry_failed_action st md wf id name a w).1.storage
        ≡ (st.retry wf id name a (pos (nanoseconds d.retry_policy s t)) w.storage).1
  retry_failed_action-retries s t after tried low low'' more =
      rw (← retry_after-eq d s t after low low'', ← tried)
        (retry_failed_action-retry (rw tried more))

  -- For a storage that does not fail, and a flow that GetFlow returns and that its machine, if one
  -- is cached, runs:
  -- With no try left the flow fails: its state becomes failed, and the failure handler decides
  -- whether the context is kept or deleted. The contexts of the other flows stay.
  pub retry_failed_action-fails :
      (wf' id' : Text)
      → ltb_ℤ (tries c a) d.retry_count ≡ false
      → rel.view (retry_failed_action st md wf id name a w).1.storage wf' id'
        ≡ (if same wf id wf' id' then after_change fl failed [] c else rel.view w.storage wf' id')
  unfolding retry_failed_action mark_failed
  retry_failed_action-fails wf' id' spent =
      let (m, w', got, ec, ef, es, em) = get_lem st rel md wf id fl defined w c cur v in
      rw got (
        ground (
          arith,
          validate_open m a (rw ec open_action),
          ec,
          ef,
          es,
          known,
          registered,
          spent,
          view-change_state_with_event st rel md wf id fl defined w' c failed [] wf' id'
              (insert-IsCurrent st rel md wf id fl defined w w' m ef em) (rw es v),
        ))

module _ {S : Type 0} (st : Storage S) (rel : Reliable st) (md : MetadataService) (wf id : Text)
    (fl : Flow) (defined : md.get_flow wf id ≡ some (ok fl)) (w : World S) (c : FlowContext) (a : ℤ)
    (act : Action) (cur : IsCurrent wf id fl w) (v : rel.view w.storage wf id ≡ some c)
    (open_action : IsOpen c a) (known : lookup a fl.actions ≡ some act) where
  -- The context with one more try counted.
  abbrev pub counted : FlowContext
  counted = record c {
    current_action_ids = insert a (int64 (tries c a +ℤ pos 1)) c.current_action_ids;
  }

  -- For a storage that does not fail, and a flow that GetFlow returns and that its machine, if one
  -- is cached, runs:
  -- A retry that is due counts one more try of the action, puts the action into its queue again,
  -- and changes nothing else of any context.
  pub execute_retry-counts :
      (wf' id' : Text)
      → (rel.view (execute_retry st md wf id a w).1.storage wf' id'
          ≡ (if same wf id wf' id' then some counted else rel.view w.storage wf' id'))
        × (rel.pending (execute_retry st md wf id a w).1.storage wf id a ≡ true)
  unfolding execute_retry store save_context_and_dispatch_action requests call contains
  execute_retry-counts wf' id' =
      let (m, w', got, ec, ef, es, em) = get_lem st rel md wf id fl defined w c cur v in
      let rs : List ActionExecutionRequest = request a (base act) ∷ [] in
      rw got (
        ground (
          arith,
          validate_open m a (rw ec open_action),
          ec,
          ef,
          es,
          known,
          rel.view-dispatch wf id wf' id' counted rs w.storage,
        ),
        ground (
          arith,
          validate_open m a (rw ec open_action),
          ec,
          ef,
          es,
          known,
          ==_refl wf,
          ==_refl id,
          ==_refl a,
          rel.pending-dispatch wf id wf id a counted rs w.storage,
        ),
      )
