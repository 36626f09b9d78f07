-- ===== src/Shard/Storage/Reliable.antt =====
-- What the engine relies on where no call of the storage fails and a saved context is read as it
-- was: the contexts that are stored, and the actions that are handed over to the executors. With
-- encoding/json that holds of a context whose data are what JSON decodes to.
use orchy.Base.{
  ℤ, int_eq, Text, text_eq, Bool, ◌&&◌, Option, none, some, List, map, contains, ◌==◌, ◌≡◌,
  if◌then◌else◌,
}
use orchy.Model.{Result, ok, err, Error, FlowContext, ActionExecutionRequest}
use orchy.Shard.Storage.{Storage}

-- Is it the same flow?
abbrev pub same : Text → Text → Text → Text → Bool
same wf id wf' id' = wf == wf' && id == id'

abbrev pub found : Error → Option FlowContext → Result FlowContext
found e none = err e
found e (some c) = ok c

abbrev pub targets : List ActionExecutionRequest → List ℤ
targets = map (λ (r : ActionExecutionRequest). r.action_id)

module _ {S : Type 0} (st : Storage S) where
  pub record Reliable : Type 0 where
    -- The stored context of a flow.
    pub view : S → Text → Text → Option FlowContext
    -- Is an action of a flow in the queue of the system or of the user actions?
    pub pending : S → Text → Text → ℤ → Bool
    pub missing : Error
    pub get_law :
        (wf id : Text) (s : S) → st.get_flow_context wf id s ≡ (found missing (view s wf id), s)
    pub save_ok :
        (wf id : Text) (c : FlowContext) (s : S) → (st.save_flow_context wf id c s).0 ≡ ok tt
    pub view-save :
        (wf id wf' id' : Text) (c : FlowContext) (s : S)
        → view (st.save_flow_context wf id c s).1 wf' id'
          ≡ (if same wf id wf' id' then some c else view s wf' id')
    pub pending-save :
        (wf id wf' id' : Text) (a : ℤ) (c : FlowContext) (s : S)
        → pending (st.save_flow_context wf id c s).1 wf' id' a ≡ pending s wf' id' a
    pub view-delete :
        (wf id wf' id' : Text) (s : S)
        → view (st.delete_flow_context wf id s).1 wf' id'
          ≡ (if same wf id wf' id' then none else view s wf' id')
    pub pending-delete :
        (wf id wf' id' : Text) (a : ℤ) (s : S)
        → pending (st.delete_flow_context wf id s).1 wf' id' a ≡ pending s wf' id' a
    pub view-dispatch :
        (wf id wf' id' : Text) (c : FlowContext) (rs : List ActionExecutionRequest) (s : S)
        → view (st.save_flow_context_and_dispatch_action wf id c rs s).1 wf' id'
          ≡ (if same wf id wf' id' then some c else view s wf' id')
    pub pending-dispatch :
        (wf id wf' id' : Text) (a : ℤ) (c : FlowContext) (rs : List ActionExecutionRequest) (s : S)
        → pending (st.save_flow_context_and_dispatch_action wf id c rs s).1 wf' id' a ≡ (
            if same wf id wf' id' && contains (targets rs) a
            then Bool.true
            else pending s wf' id' a)
    pub view-retry :
        (wf id name : Text) (a d : ℤ) (s : S) (wf' id' : Text)
        → view (st.retry wf id name a d s).1 wf' id' ≡ view s wf' id'
    pub view-delay :
        (wf id name : Text) (a d : ℤ) (s : S) (wf' id' : Text)
        → view (st.delay wf id name a d s).1 wf' id' ≡ view s wf' id'
