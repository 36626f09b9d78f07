-- ===== src/Rest/Response.antt =====
-- The helpers of rest/server.go that write a response. Of net/http it is used that the status is
-- settled by the first call of WriteHeader, or by the first Write, and the headers with it.
use orchy.Base.{ℕ, Text, lit, Option, none, some, List, [], ◌∷◌, ◌++◌}
use orchy.Model.{Workflow, ActionDefinition, FlowExecution}

-- What json.Marshal makes a body of.
pub data Payload : Type 0 where
  error_message : Text → Payload
  created : Payload
  started : Text → Payload
  execution : FlowExecution → Payload
  workflow : Workflow → Payload
  definition : ActionDefinition → Payload

-- http.ResponseWriter, as what was written to it.
pub record Response : Type 0 where
  pub status : Option ℕ
  pub content_type : Option Text
  pub body : List Payload

abbrev pub no_response : Response
no_response = record { status = none; content_type = none; body = [] }

-- w.WriteHeader(code)
unfoldable pub write_header : ℕ → Response → Response
write_header code w = elim w.status [ none ↦ record w { status = some code } | some _ ↦ w ]

-- w.Header().Set("Content-Type", "application/json"), which comes too late after the status.
unfoldable pub set_json : Response → Response
set_json w = elim w.status [
  | none ↦ record w { content_type = some (lit "application/json") }
  | some _ ↦ w
]

-- w.Write
unfoldable pub write : Payload → Response → Response
unfolding write_header
write p w = let w' = write_header 200 w in record w' { body = w'.body ++ (p ∷ []) }

-- respondWithJSON
unfoldable pub respond_with_json : ℕ → Payload → Response → Response
unfolding set_json write
respond_with_json code p w = write p (write_header code (set_json w))

-- respondOK
unfoldable pub respond_ok : Payload → Response → Response
respond_ok p w = write p (write_header 200 (set_json w))

-- respondOKWithoutBody
unfoldable pub respond_ok_without_body : Response → Response
respond_ok_without_body w = write_header 200 (set_json w)

-- respondWithError
unfoldable pub respond_with_error : ℕ → Text → Response → Response
respond_with_error code message w = respond_with_json code (error_message message) w
