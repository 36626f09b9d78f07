-- ===== src/Shard/Steps/Settled.antt =====
-- A flow that is completed or failed stays so, unless a pause is asked for (shard/engine.go).
use orchy.Base.{Text, true, some, List, [], ◌∷◌, All, ◌≡◌, refl, ◌∙◌, ap}
use orchy.Model.{FlowContext}
use orchy.Action.{Libs}
use orchy.Shard.Storage.{Storage}
use orchy.Shard.Storage.Reliable.{Reliable}
use orchy.Shard.Container.{MetadataService, World}
use orchy.Shard.Machine.{is_terminal}
use orchy.Shard.Requests.Settled.{serve-settled}
use orchy.Shard.Steps.Serve.{Event, requested, pause_asked, restarted, happen, run}

-- The event is no pause.
abbrev pub NoPause : Event → Type 0
NoPause pause_asked = ⊥
NoPause (requested r) = Unit
NoPause restarted = Unit

module _ {S : Type 0} (st : Storage S) (rel : Reliable st) (md : MetadataService) (wf id : Text)
    (lib : Libs) where
  happen-settled :
      (e : Event) (w : World S) (c : FlowContext)
      → NoPause e
      → rel.view w.storage wf id ≡ some c
      → is_terminal c.state ≡ true
      → ((happen st md lib wf id e w).storage ≡ w.storage)
        × ((happen st md lib wf id e w).records ≡ w.records)
  unfolding happen
  happen-settled pause_asked w c p v t = absurd p
  happen-settled restarted w c p v t = (refl, refl)
  happen-settled (requested r) w c p v t =
      let law = rel.get_law wf id w.storage in
      let (stays, silent) = serve-settled st md wf id w c (rw (law, v) refl) t lib r in
      (stays ∙ rw law refl, silent)

  -- For a storage that does not fail: if the stored context of a flow is completed or failed, then
  -- no sequence of requests and restarts without a pause changes anything in the storage or records
  -- anything.
  pub settled_forever :
      (es : List Event) (w : World S) (c : FlowContext)
      → All NoPause es
      → rel.view w.storage wf id ≡ some c
      → is_terminal c.state ≡ true
      → ((run st md lib wf id es w).storage ≡ w.storage)
        × ((run st md lib wf id es w).records ≡ w.records)
  unfolding run
  settled_forever [] w c p v t = (refl, refl)
  settled_forever (e ∷ es) w c p v t =
      let (stays, silent) = happen-settled e w c p.0 v t in
      let (stays', silent') =
        settled_forever es (happen st md lib wf id e w) c p.1 (ap (λ s. rel.view s wf id) stays ∙ v)
          t in
      (stays' ∙ stays, silent' ∙ silent)
