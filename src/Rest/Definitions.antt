-- ===== src/Rest/Definitions.antt =====
-- The handlers of rest/handler_metadata.go and rest/handler_metadata_action.go, over the storage
-- of the metadata.
use orchy.Base.{Text, text_eq, lit, Bool, true, false, if◌then◌else◌, none, some, []}
use orchy.Base.Map.{Map, lookup}
use orchy.Model.{
  Error, Result, ok, err, Workflow, ActionDefinition, WorkflowRunRequest, WorkflowEvent,
}
use orchy.Action.{Libs}
use orchy.Metadata.{validate_flow}
use orchy.Metadata.Store.{MetadataStore, reads}
use orchy.Rest.Response.{
  Response, no_response, write_header, respond_with_json, respond_ok, respond_with_error, created,
  workflow, definition,
}

-- http.Request, as far as the handlers read it; the variables are those of gorilla/mux.
pub record Request : Type 0 where
  pub body : Text
  pub vars : Map Text Text

-- json.NewDecoder(r.Body).Decode(&v), from a zero v: what v then holds, and whether there was no
-- error. After an error v may hold a part of the body.
pub record Decoder : Type 0 where
  pub workflow : Text → Workflow × Bool
  pub action_definition : Text → ActionDefinition × Bool
  pub run_request : Text → WorkflowRunRequest × Bool
  pub event : Text → WorkflowEvent × Bool

-- The response after the test that precedes each request: an error settles the status, and no more.
unfoldable pub checked : Bool → Response → Response
checked fine w = if fine then w else write_header 400 w

-- v, ok := vars[name], and the same test.
unfoldable pub path_var : Text → Request → Response → Text × Response
path_var name req w = elim (lookup name req.vars) [
  | none ↦ ([], checked false w)
  | some v ↦ (v, checked true w)
]

-- The two variables of the paths under /execution.
abbrev pub name_and_id : Request → Text × Text × Response
name_and_id req =
    let (name, w) = path_var (lit "name") req no_response in
    let (flow_id, w') = path_var (lit "id") req w in (name, flow_id, w')

module _ {R : Type 0} (store : MetadataStore R) (lib : Libs) (decoder : Decoder)
    (message : Error → Text) where
  abbrev pub flow_saved : Response → Result (Unit {0}) × R → Response × R
  flow_saved w (err e, s) = (respond_with_error 400 (lit "error creating workflow") w, s)
  flow_saved w (ok u, s) = (respond_ok created w, s)

  abbrev pub on_verdict : Workflow → Response → Result (Unit {0}) → R → Response × R
  on_verdict fl w (err e) s = (respond_with_error 400 (message e) w, s)
  on_verdict fl w (ok u) s = flow_saved w (store.save_workflow_definition fl s)

  -- HandleCreateFlow
  unfoldable pub handle_create_flow : Request → R → Response × R
  handle_create_flow req s =
      let (fl, fine) = decoder.workflow req.body in
      on_verdict fl (checked fine no_response) (validate_flow lib (reads store s) fl) s

  abbrev pub flow_found : Response → Result Workflow × R → Response × R
  flow_found w (err e, s) = (respond_with_error 400 (lit "wokflow does not exist") w, s)
  flow_found w (ok wf, s) = (respond_with_json 200 (workflow wf) w, s)

  -- HandleGetFlow
  unfoldable pub handle_get_flow : Request → R → Response × R
  handle_get_flow req s =
      let (name, w) = path_var (lit "name") req no_response in
      flow_found w (store.get_workflow_definition name s)

  abbrev pub action_saved : Response → Result (Unit {0}) × R → Response × R
  action_saved w (err e, s) = (respond_with_error 400 (lit "error creating action definition") w, s)
  action_saved w (ok u, s) = (respond_ok created w, s)

  -- HandleCreateActionDefinition
  unfoldable pub handle_create_action_definition : Request → R → Response × R
  handle_create_action_definition req s =
      let (d, fine) = decoder.action_definition req.body in
      action_saved (checked fine no_response) (store.save_action_definition d s)

  abbrev pub action_found : Response → Result ActionDefinition × R → Response × R
  action_found w (err e, s) = (respond_with_error 400 (lit "action definition not found") w, s)
  action_found w (ok d, s) = (respond_with_json 200 (definition d) w, s)

  -- HandleGetActionDefinition
  unfoldable pub handle_get_action_definition : Request → R → Response × R
  handle_get_action_definition req s =
      let (name, w) = path_var (lit "name") req no_response in
      action_found w (store.get_action_definition name s)
