-- ===== src/Rest/Answers.antt =====
-- What the helpers of the package rest make of a response that was begun or not.
use orchy.Base.{
  ℕ, ◌≤◌, Text, text_eq, lit, Bool, true, false, ◌&&◌, if◌then◌else◌, none, some, Outcome, returned,
  panicked, continue, pure, ◌≡◌, refl, ap, ◌∙◌, arith, length, ◌⊎◌, inl, inr, Option-cases,
}
use orchy.Base.Map.{lookup}
use orchy.Model.{Result, ok, err, FlowContext}
use orchy.Rest.{flow_execution}
use orchy.Cluster.Shards.{Cluster}
use orchy.Rest.Response.{
  Response, Payload, no_response, write_header, write, set_json, respond_with_json, respond_ok,
  respond_ok_without_body, respond_with_error, execution, started,
}
use orchy.Rest.Definitions.{Request, checked, path_var, name_and_id}
use orchy.Rest.Flows.{on_started, on_done, on_found}
use orchy.Rest.Routes.{ServerState}

-- A response with a status of the interface, and with at most one body.
abbrev pub IsAnswer : Response → Type 0
IsAnswer w = ((w.status ≡ some 200) ⊎ (w.status ≡ some 400)) × (length w.body ≤ 1)

-- Are the variables of the path there?
unfoldable pub has_var : Text → Request → Bool
has_var name req = elim (lookup name req.vars) [ none ↦ false | some v ↦ true ]

pub path_var-checked :
    (name : Text) (req : Request) (w : Response)
    → (path_var name req w).1 ≡ checked (has_var name req) w
unfolding path_var has_var
path_var-checked name req w = elim (Option-cases (lookup name req.vars)) [
  | inl e ↦ rw (path_var, has_var, e) refl
  | inr (v, e) ↦ rw (path_var, has_var, e) refl
]

pub checked-checked :
    (a b : Bool) → checked b (checked a no_response) ≡ checked (a && b) no_response
unfolding checked write_header
checked-checked true b = refl
checked-checked false true = refl
checked-checked false false = refl

unfoldable pub has_both : Request → Bool
has_both req = has_var (lit "name") req && has_var (lit "id") req

pub name_and_id-checked : (req : Request) → (name_and_id req).2 ≡ checked (has_both req) no_response
unfolding has_both
name_and_id-checked req =
    path_var-checked (lit "id") req (path_var (lit "name") req no_response).1
    ∙ ap (checked (has_var (lit "id") req)) (path_var-checked (lit "name") req no_response)
    ∙ checked-checked (has_var (lit "name") req) (has_var (lit "id") req)

pub refused-IsAnswer :
    (fine : Bool) (text : Text) → IsAnswer (respond_with_error 400 text (checked fine no_response))
unfolding respond_with_error respond_with_json write write_header set_json checked
refused-IsAnswer true text = (inr refl, omega arith)
refused-IsAnswer false text = (inr refl, omega arith)

pub json-IsAnswer :
    (fine : Bool) (p : Payload) → IsAnswer (respond_with_json 200 p (checked fine no_response))
unfolding respond_with_json write write_header set_json checked
json-IsAnswer true p = (inl refl, omega arith)
json-IsAnswer false p = (inr refl, omega arith)

-- Every success has the status 200, unless the request could not be read.
abbrev pub status_of : Bool → ℕ
status_of fine = if fine then 200 else 400

pub ok-status :
    (fine : Bool) (p : Payload)
    → ((respond_ok p (checked fine no_response)).status ≡ some (status_of fine))
      × (length (respond_ok p (checked fine no_response)).body ≤ 1)
unfolding respond_ok write write_header set_json checked
ok-status true p = (refl, omega arith)
ok-status false p = (refl, omega arith)

pub without_body-status :
    (fine : Bool)
    → ((respond_ok_without_body (checked fine no_response)).status ≡ some (status_of fine))
      × (length (respond_ok_without_body (checked fine no_response)).body ≤ 1)
unfolding respond_ok_without_body write_header set_json checked
without_body-status true = (refl, omega arith)
without_body-status false = (refl, omega arith)

pub status-IsAnswer :
    (fine : Bool) (w : Response)
    → (w.status ≡ some (status_of fine)) × (length w.body ≤ 1)
    → IsAnswer w
status-IsAnswer true w h = (inl h.0, h.1)
status-IsAnswer false w h = (inr h.0, h.1)

-- A call, and a response made of its result.
pub bind-returned :
    {C A B : Type 0} {b : B} {s' : C} (r : Outcome A × C) (f : A → B)
    → continue r.0 (λ a. pure (f a)) r.1 ≡ (returned b, s')
    → (a : A) × (r ≡ (returned a, s')) × (b ≡ f a)
bind-returned (returned a, s) f h = (a, cc, cc)
bind-returned (panicked, s) f h = cc

pub metadata_returned :
    {H S Q R : Type 0} {n' : ServerState H S Q R} {w : Response} (r : Response × R)
    (n : ServerState H S Q R)
    → ◌≡◌ {A = Outcome Response × ServerState H S Q R}
        (returned r.0, record n { metadata = r.1 })
        (returned w, n')
    → w ≡ r.0
metadata_returned r n h = cc

pub cluster_returned :
    {H S Q R : Type 0} {n' : ServerState H S Q R} {w : Response}
    (r : Outcome Response × Cluster H S Q) (n : ServerState H S Q R)
    → ◌≡◌ {A = Outcome Response × ServerState H S Q R}
        (r.0, record n { cluster = r.1 })
        (returned w, n')
    → r ≡ (returned w, r.1)
cluster_returned r n h = cc

pub done-status :
    (fine : Bool) (text : Text) (u : Unit {0})
    → ((on_done text (checked fine no_response) (ok u)).status ≡ some (status_of fine))
      × (length (on_done text (checked fine no_response) (ok u)).body ≤ 1)
done-status fine text u = without_body-status fine

pub done-IsAnswer :
    (fine : Bool) (text : Text) (r : Result (Unit {0}))
    → IsAnswer (on_done text (checked fine no_response) r)
done-IsAnswer fine text (err e) = refused-IsAnswer fine text
done-IsAnswer fine text (ok u) =
    status-IsAnswer fine (on_done text (checked fine no_response) (ok u)) (done-status fine text u)

pub found-IsAnswer :
    (fine : Bool) (r : Result FlowContext) → IsAnswer (on_found (checked fine no_response) r)
found-IsAnswer fine (err e) = refused-IsAnswer fine (lit "flow execution not found")
found-IsAnswer fine (ok ctx) = json-IsAnswer fine (execution (flow_execution ctx))

pub started-IsAnswer :
    (fine : Bool) (r : Result Text) → IsAnswer (on_started (checked fine no_response) r)
started-IsAnswer fine (err e) = refused-IsAnswer fine (lit "error running workflow")
started-IsAnswer fine (ok id) =
    status-IsAnswer fine (respond_ok (started id) (checked fine no_response))
      (ok-status fine (started id))
