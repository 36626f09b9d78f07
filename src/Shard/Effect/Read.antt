-- ===== src/Shard/Effect/Read.antt =====
-- Get on a storage whose calls do not fail.
use orchy.Base.{Text, text_eq, ==_refl, some, returned, ◌≡◌, refl, arith, Option-cases, inl, inr}
use orchy.Base.Map.{lookup, insert, lookup-insert}
use orchy.Model.{ok, FlowContext}
use orchy.Flow.{Flow}
use orchy.Shard.Storage.{Storage}
use orchy.Shard.Storage.Reliable.{Reliable}
use orchy.Shard.Machine.{FlowStateMachine}
use orchy.Shard.Container.{MetadataService, World, machine_key, get, call, cached, store}

-- The machine that is cached for a flow, if one is, runs the definition `fl`.
pub record IsCurrent {S : Type 0} (wf id : Text) (fl : Flow) (w : World S) : Type 0 where
  pub cached_flow :
      (m : FlowStateMachine) → lookup (machine_key wf id) w.machines ≡ some m → m.flow ≡ fl

module _ {S : Type 0} (st : Storage S) (rel : Reliable st) (md : MetadataService) (wf id : Text)
    (fl : Flow) (defined : md.get_flow wf id ≡ some (ok fl)) where
  pub get_lem :
      (w : World S) (c : FlowContext)
      → IsCurrent wf id fl w
      → rel.view w.storage wf id ≡ some c
      → (m : FlowStateMachine) × (w' : World S) × (get st md wf id w ≡ (returned (ok m), w'))
        × (m.context ≡ c)
        × (m.flow ≡ fl)
        × (w'.storage ≡ w.storage)
        × (w'.machines ≡ insert (machine_key wf id) m w.machines)
  unfolding get call cached store
  get_lem w c cur v = elim (Option-cases (lookup (machine_key wf id) w.machines)) [
    | inl fresh ↦
        let m : FlowStateMachine = record { workflow = wf; id = id; context = c; flow = fl } in
        (
          m,
          record w { machines = insert (machine_key wf id) m w.machines },
          ground (arith, rel.get_law wf id w.storage),
          refl,
          refl,
          refl,
          refl,
        )
    | inr (old, e) ↦
        let m : FlowStateMachine = record old { context = c } in
        (
          m,
          record w { machines = insert (machine_key wf id) m w.machines },
          ground (arith, rel.get_law wf id w.storage),
          refl,
          cur.cached_flow old e,
          refl,
          refl,
        )
  ]

  -- The flow stays current when its machine is stored.
  pub insert-IsCurrent :
      (w w' : World S) (m : FlowStateMachine)
      → m.flow ≡ fl
      → w'.machines ≡ insert (machine_key wf id) m w.machines
      → IsCurrent wf id fl w'
  insert-IsCurrent w w' m ef em = record {
    cached_flow = λ m' h. ground (
      arith,
      em,
      lookup-insert (machine_key wf id) (machine_key wf id) m w.machines,
      ==_refl (machine_key wf id),
    );
  }
