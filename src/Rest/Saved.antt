-- ===== src/Rest/Saved.antt =====
-- What the handlers of rest/handler_metadata.go and rest/handler_metadata_action.go save.
use orchy.Base.{
  ℕ, ℤ, Text, text_eq, lit, Bool, true, false, ◌&&◌, if◌then◌else◌, Option, none, some, [], ◌∷◌,
  All, ◌≡◌, refl, sym, ap, ◌∙◌, arith,
}
use orchy.Model.{Error, Result, ok, err, Workflow, ActionDefinition}
use orchy.Action.{Libs}
use orchy.Flow.{Flow}
use orchy.Metadata.{build_actions, validate_flow}
use orchy.Metadata.Store.{MetadataStore, KeepsWorkflows, reads, service_of}
use orchy.Metadata.Sound.{validate_flow-IsValid}
use orchy.Metadata.Graph.{IsAcyclic, get_flow-of_wired}
use orchy.Metadata.Walk.Leaves.{IsSetOf, IsLeaf}
use orchy.Rest.Response.{
  Response, Payload, error_message, created, respond_ok, respond_with_error, respond_with_json,
  write, write_header, set_json, no_response,
}
use orchy.Rest.Definitions.{
  Request, Decoder, handle_create_flow, handle_create_action_definition, checked, action_saved,
  flow_saved, on_verdict,
}

abbrev pub is_ok : {A : Type 0} → Result A → Bool
is_ok (ok a) = true
is_ok (err e) = false

is_ok-eq : (r : Result (Unit {0})) → is_ok r ≡ true → r ≡ ok tt
is_ok-eq (ok tt) h = refl
is_ok-eq (err e) h = cc

-- The answer to a request: the status is that of the first error; but the content type is lost, and
-- the body is the same, where the request could not be read.
abbrev pub answer : Bool → Bool → Payload → Response
answer fine success body = record {
  status = some (if fine && success then 200 else 400);
  content_type = if fine then some (lit "application/json") else none;
  body = body ∷ [];
}

module _ {R : Type 0} (store : MetadataStore R) (lib : Libs) (decoder : Decoder)
    (message : Error → Text) where
  action_answered :
      (fine : Bool) (r : Result (Unit {0})) (s' : R)
      → action_saved store lib decoder message (checked fine no_response) (r, s') ≡ (
        answer fine
            (is_ok r)
            (if is_ok r then created else error_message (lit "error creating action definition")),
        s',
      )
  unfolding checked respond_ok respond_with_error respond_with_json write write_header set_json
  action_answered true (ok tt) s' = refl
  action_answered true (err e) s' = refl
  action_answered false (ok tt) s' = refl
  action_answered false (err e) s' = refl

  -- HandleCreateActionDefinition saves what the decoder left, whether or not the body could be read:
  -- the new state is that after the call of the storage, and the body says `created` if and only if
  -- that call succeeds, also under the status 400 of a body that could not be read.
  pub handle_create_action_definition_lem :
      (req : Request) (s : R) (d : ActionDefinition) (fine : Bool)
      → decoder.action_definition req.body ≡ (d, fine)
      → handle_create_action_definition store lib decoder message req s ≡ (
        answer fine (is_ok (store.save_action_definition d s).0) (
            if is_ok (store.save_action_definition d s).0
            then created
            else error_message (lit "error creating action definition")),
        (store.save_action_definition d s).1,
      )
  unfolding handle_create_action_definition
  handle_create_action_definition_lem req s d fine h = rw h (
      action_answered fine (store.save_action_definition d s).0
        (store.save_action_definition d s).1)

  flow_answered :
      (fine : Bool) (r : Result (Unit {0})) (s' : R)
      → flow_saved store lib decoder message (checked fine no_response) (r, s') ≡ (
        answer fine
            (is_ok r)
            (if is_ok r then created else error_message (lit "error creating workflow")),
        s',
      )
  unfolding checked respond_ok respond_with_error respond_with_json write write_header set_json
  flow_answered true (ok tt) s' = refl
  flow_answered true (err e) s' = refl
  flow_answered false (ok tt) s' = refl
  flow_answered false (err e) s' = refl

  refused :
      (fine : Bool) (text : Text)
      → respond_with_error 400 text (checked fine no_response)
        ≡ answer fine false (error_message text)
  unfolding checked respond_with_error respond_with_json write write_header set_json
  refused true text = refl
  refused false text = refl

  -- The response and the storage after each outcome of ValidateFlow.
  verdict_lem :
      (s : R) (wf : Workflow) (fine : Bool) (verdict : Result (Unit {0}))
      → on_verdict store lib decoder message wf (checked fine no_response) verdict s
        ≡ elim verdict [
          | err e ↦ (answer fine false (error_message (message e)), s)
          | ok u ↦ (
            answer fine (is_ok (store.save_workflow_definition wf s).0) (
                if is_ok (store.save_workflow_definition wf s).0
                then created
                else error_message (lit "error creating workflow")),
            (store.save_workflow_definition wf s).1,
          )
        ]
  verdict_lem s wf fine (err e) = ap (λ w. (w, s)) (refused fine (message e))
  verdict_lem s wf fine (ok u) =
      flow_answered fine (store.save_workflow_definition wf s).0
        (store.save_workflow_definition wf s).1

  abbrev is_saved : R → Workflow → Result (Unit {0}) → Bool
  is_saved s wf (err e) = false
  is_saved s wf (ok u) = is_ok (store.save_workflow_definition wf s).0

  -- A status of 200 is a success.
  success :
      (fine done : Bool)
      → ◌≡◌ {A = Option ℕ} (some (if fine && done then 200 else 400)) (some 200)
      → done ≡ true
  success fine done h = ground arith

  settled :
      (s : R) (wf : Workflow) (fine : Bool) (verdict : Result (Unit {0}))
      → (on_verdict store lib decoder message wf (checked fine no_response) verdict s).0.status
        ≡ some 200
      → ◌≡◌ {A = Option ℕ} (some (if fine && is_saved s wf verdict then 200 else 400)) (some 200)
  settled s wf fine (err e) h =
      sym (ap (λ (p : Response × R). p.0.status) (verdict_lem s wf fine (err e))) ∙ h
  settled s wf fine (ok u) h =
      sym (ap (λ (p : Response × R). p.0.status) (verdict_lem s wf fine (ok u))) ∙ h

  verdict_created :
      (s : R) (wf : Workflow) (fine : Bool) (verdict : Result (Unit {0}))
      → (on_verdict store lib decoder message wf (checked fine no_response) verdict s).0.status
        ≡ some 200
      → (verdict ≡ ok tt)
        × ((store.save_workflow_definition wf s).0 ≡ ok tt)
        × ((on_verdict store lib decoder message wf (checked fine no_response) verdict s).1
            ≡ (store.save_workflow_definition wf s).1)
  verdict_created s wf fine (err e) h =
      absurd (ground (arith, success fine false (settled s wf fine (err e) h)))
  verdict_created s wf fine (ok u) h = (
    refl,
    is_ok-eq (store.save_workflow_definition wf s).0
        (success fine (is_ok (store.save_workflow_definition wf s).0) (settled s wf fine (ok u) h)),
    ap (λ (p : Response × R). p.1) (verdict_lem s wf fine (ok u)),
  )

  -- A workflow that POST /metadata/workflow answers with 200 was accepted by ValidateFlow and is
  -- saved: on a storage that reads back what it saved, and if no group of its next actions is empty
  -- and there is no cycle, GetFlow of the metadata service then returns a flow under its name, with
  -- its root action, its actions, and sets of terminal actions without next ones.
  pub handle_create_flow-get_flow :
      (kept : KeepsWorkflows store) (req : Request) (s : R) (id : Text) (rank : ℤ → ℕ)
      → (handle_create_flow store lib decoder message req s).0.status ≡ some 200
      → IsAcyclic (build_actions (decoder.workflow req.body).0.actions []) rank
      → (fl : Flow) × ((service_of store
              (handle_create_flow store lib decoder message req s).1).get_flow
            (decoder.workflow req.body).0.name
            id
          ≡ some (ok fl))
        × (fl.root_action ≡ (decoder.workflow req.body).0.root_action)
        × (fl.actions ≡ build_actions (decoder.workflow req.body).0.actions [])
        × All
            (IsSetOf (IsLeaf (build_actions (decoder.workflow req.body).0.actions [])))
            fl.terminal_actions
  unfolding service_of handle_create_flow reads
  handle_create_flow-get_flow kept req s id rank h acyclic =
      let wf = (decoder.workflow req.body).0 in
      let (accepted, saved, after) =
        verdict_created s wf (decoder.workflow req.body).1 (validate_flow lib (reads store s) wf)
          h in
      rw after (
        get_flow-of_wired (reads store (store.save_workflow_definition wf s).1) wf wf.name id
          (kept.get_saved wf s saved) rank
          (validate_flow-IsValid lib (reads store s) wf accepted).wired acyclic)
