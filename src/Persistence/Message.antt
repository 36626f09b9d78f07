-- ===== src/Persistence/Message.antt =====
-- The members of the sorted sets of persistence/redis/shard.go: an action of a flow, as a text.
pub mod RoundTrip
use orchy.Base.{ℤ, Text, none, List, [], ◌∷◌, Outcome, returned, panicked}
use orchy.Base.Strconv.{itoa, atoi, split, join}
use orchy.Model.{ActionExecutionRequest}

-- fmt.Sprintf("%s:%s:%s:%d", wfName, flowId, actionName, actionId)
unfoldable pub message : Text → Text → Text → ℤ → Text
unfolding join itoa
message wf id name a = join (wf ∷ id ∷ name ∷ itoa a ∷ [])

abbrev from_parts : List Text → Outcome ActionExecutionRequest
from_parts (wf ∷ id ∷ name ∷ number ∷ rest) = returned (record {
  workflow_name = wf;
  flow_id = id;
  action_name = name;
  action_id = atoi number;
  action_type = none;
})
from_parts _ = panicked

-- What a poll makes of a member; with fewer than four parts, `parts[3]` panics.
unfoldable pub parse_message : Text → Outcome ActionExecutionRequest
unfolding split atoi
parse_message v = from_parts (split v)

abbrev prepend :
    Outcome ActionExecutionRequest
    → Outcome (List ActionExecutionRequest)
    → Outcome (List ActionExecutionRequest)
prepend (returned r) (returned rs) = returned (r ∷ rs)
prepend (returned r) panicked = panicked
prepend panicked rs = panicked

-- The loop of the polls.
unfoldable pub parse_messages : List Text → Outcome (List ActionExecutionRequest)
unfolding parse_message
parse_messages [] = returned []
parse_messages (v ∷ vs) = prepend (parse_message v) (parse_messages vs)

-- The message of a request, as Ack builds it.
unfoldable pub message_of : ActionExecutionRequest → Text
unfolding message
message_of r = message r.workflow_name r.flow_id r.action_name r.action_id
