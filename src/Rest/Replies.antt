-- ===== src/Rest/Replies.antt =====
-- The responses of the handlers of definitions (rest/handler_metadata.go,
-- rest/handler_metadata_action.go).
use orchy.Base.{Text, text_eq, lit, Bool}
use orchy.Model.{Error, Result, ok, err, Workflow, ActionDefinition}
use orchy.Action.{Libs}
use orchy.Metadata.{validate_flow}
use orchy.Metadata.Store.{MetadataStore, reads}
use orchy.Rest.Response.{no_response, respond_ok, created, workflow, definition}
use orchy.Rest.Definitions.{
  Request, Decoder, checked, path_var, handle_create_flow, handle_get_flow,
  handle_create_action_definition, handle_get_action_definition, on_verdict, flow_saved, flow_found,
  action_saved, action_found,
}
use orchy.Rest.Answers.{
  IsAnswer, ok-status, json-IsAnswer, refused-IsAnswer, status-IsAnswer, path_var-checked, has_var,
}

module _ {R : Type 0} (store : MetadataStore R) (lib : Libs) (decoder : Decoder)
    (message : Error → Text) where
  verdict-IsAnswer :
      (s : R) (wf : Workflow) (fine : Bool) (verdict : Result (Unit {0}))
      → IsAnswer (on_verdict store lib decoder message wf (checked fine no_response) verdict s).0
  verdict-IsAnswer s wf fine (err e) = refused-IsAnswer fine (message e)
  verdict-IsAnswer s wf fine (ok u) =
      flow_saved-IsAnswer fine (store.save_workflow_definition wf s).0
        (store.save_workflow_definition wf s).1
    where
      flow_saved-IsAnswer :
          (fine : Bool) (r : Result (Unit {0})) (s' : R)
          → IsAnswer (flow_saved store lib decoder message (checked fine no_response) (r, s')).0
      flow_saved-IsAnswer fine (err e) s' = refused-IsAnswer fine (lit "error creating workflow")
      flow_saved-IsAnswer fine (ok u) s' =
          status-IsAnswer fine (respond_ok created (checked fine no_response))
            (ok-status fine created)

  action_saved-IsAnswer :
      (fine : Bool) (r : Result (Unit {0})) (s' : R)
      → IsAnswer (action_saved store lib decoder message (checked fine no_response) (r, s')).0
  action_saved-IsAnswer fine (err e) s' =
      refused-IsAnswer fine (lit "error creating action definition")
  action_saved-IsAnswer fine (ok u) s' =
      status-IsAnswer fine (respond_ok created (checked fine no_response)) (ok-status fine created)

  flow_found-IsAnswer :
      (fine : Bool) (r : Result Workflow) (s' : R)
      → IsAnswer (flow_found store lib decoder message (checked fine no_response) (r, s')).0
  flow_found-IsAnswer fine (err e) s' = refused-IsAnswer fine (lit "wokflow does not exist")
  flow_found-IsAnswer fine (ok wf) s' = json-IsAnswer fine (workflow wf)

  action_found-IsAnswer :
      (fine : Bool) (r : Result ActionDefinition) (s' : R)
      → IsAnswer (action_found store lib decoder message (checked fine no_response) (r, s')).0
  action_found-IsAnswer fine (err e) s' = refused-IsAnswer fine (lit "action definition not found")
  action_found-IsAnswer fine (ok d) s' = json-IsAnswer fine (definition d)

  pub handle_create_flow-IsAnswer :
      (req : Request) (s : R) → IsAnswer (handle_create_flow store lib decoder message req s).0
  unfolding handle_create_flow
  handle_create_flow-IsAnswer req s =
      let (wf, fine) = decoder.workflow req.body in
      verdict-IsAnswer s wf fine (validate_flow lib (reads store s) wf)

  pub handle_get_flow-IsAnswer :
      (req : Request) (s : R) → IsAnswer (handle_get_flow store lib decoder message req s).0
  unfolding handle_get_flow
  handle_get_flow-IsAnswer req s =
      let found = store.get_workflow_definition (path_var (lit "name") req no_response).0 s in
      rw (path_var-checked (lit "name") req no_response)
        (flow_found-IsAnswer (has_var (lit "name") req) found.0 found.1)

  pub handle_create_action_definition-IsAnswer :
      (req : Request) (s : R)
      → IsAnswer (handle_create_action_definition store lib decoder message req s).0
  unfolding handle_create_action_definition
  handle_create_action_definition-IsAnswer req s =
      let (d, fine) = decoder.action_definition req.body in
      let saved = store.save_action_definition d s in action_saved-IsAnswer fine saved.0 saved.1

  pub handle_get_action_definition-IsAnswer :
      (req : Request) (s : R)
      → IsAnswer (handle_get_action_definition store lib decoder message req s).0
  unfolding handle_get_action_definition
  handle_get_action_definition-IsAnswer req s =
      let found = store.get_action_definition (path_var (lit "name") req no_response).0 s in
      rw (path_var-checked (lit "name") req no_response)
        (action_found-IsAnswer (has_var (lit "name") req) found.0 found.1)
