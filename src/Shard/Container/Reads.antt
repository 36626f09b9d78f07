-- ===== src/Shard/Container/Reads.antt =====
-- What Get of shard/flow.go leaves alone, and what it returns.
use orchy.Base.{Text, ◌≡◌, arith, returned}
use orchy.Model.{ok}
use orchy.Shard.Storage.{Storage}
use orchy.Shard.Machine.{FlowStateMachine}
use orchy.Shard.Container.{MetadataService, World, get, call, cached, store}

module _ {S : Type 0} (st : Storage S) (md : MetadataService) (wf id : Text) (w : World S) where
  -- Get reads the context once, and does nothing else to the storage.
  pub storage-get : (get st md wf id w).1.storage ≡ (st.get_flow_context wf id w.storage).1
  unfolding get call cached store
  storage-get = ground arith

  pub records-get : (get st md wf id w).1.records ≡ w.records
  unfolding get call cached store
  records-get = ground arith

  -- The machine that Get returns holds the context that it read.
  pub context-get :
      (m : FlowStateMachine)
      → (get st md wf id w).0 ≡ returned (ok m)
      → (st.get_flow_context wf id w.storage).0 ≡ ok m.context
  unfolding get call cached store
  context-get m h = ground arith
