-- ===== src/Persistence/Message/RoundTrip.antt =====
-- What a poll of persistence/redis/shard.go reads is what was put into the queue.
use orchy.Base.{ℕ, ℤ, pos, negsuc, Text, none, List, [], ◌∷◌, map, All, returned, ◌≡◌, refl, arith}
use orchy.Base.Strconv.{itoa}
use orchy.Base.Strconv.Decimal.{IsDigit, IsInt64, decimal-IsDigit, atoi-itoa}
use orchy.Base.Strconv.Split.{HasNoColon, split-join}
use orchy.Model.{ActionExecutionRequest}
use orchy.Persistence.Message.{message, parse_message, parse_messages, message_of}

digits-HasNoColon : (s : Text) → All IsDigit s → HasNoColon s
digits-HasNoColon [] h = tt
digits-HasNoColon (c ∷ s) h = (omega (arith, h.0), digits-HasNoColon s h.1)

pub itoa-HasNoColon : (z : ℤ) → HasNoColon (itoa z)
unfolding itoa
itoa-HasNoColon (pos n) = digits-HasNoColon _ (decimal-IsDigit n)
itoa-HasNoColon (negsuc n) = (omega arith, digits-HasNoColon _ (decimal-IsDigit (ℕ.suc n)))

-- The request that a poll makes of an action of a flow: its kind is left out.
abbrev pub polled_request : Text → Text → Text → ℤ → ActionExecutionRequest
polled_request wf id name a = record {
  workflow_name = wf;
  flow_id = id;
  action_name = name;
  action_id = a;
  action_type = none;
}

-- The message of an action of a flow is read back, if no name has a colon and the action's id is an
-- int64.
pub parse_message-message :
    (wf id name : Text) (a : ℤ)
    → HasNoColon wf
    → HasNoColon id
    → HasNoColon name
    → IsInt64 a
    → parse_message (message wf id name a) ≡ returned (polled_request wf id name a)
unfolding parse_message message
parse_message-message wf id name a hw hi hn ha =
    rw (split-join wf id name (itoa a) hw hi hn (itoa-HasNoColon a), atoi-itoa a ha) refl

-- A request that names a flow and an action as they may be named.
pub record IsPlain (r : ActionExecutionRequest) : Type 0 where
  pub workflow_plain : HasNoColon r.workflow_name
  pub flow_plain : HasNoColon r.flow_id
  pub action_plain : HasNoColon r.action_name
  pub id_fits : IsInt64 r.action_id
  pub kindless : r.action_type ≡ none

-- Of the messages of requests whose names have no colon and whose ids are int64, as Ack builds them, a
-- poll makes these requests, in this order.
pub parse_messages-map :
    (rs : List ActionExecutionRequest)
    → All IsPlain rs
    → parse_messages (map message_of rs) ≡ returned rs
unfolding parse_messages message_of
parse_messages-map [] h = refl
parse_messages-map (r ∷ rs) h =
    rw
      (
        parse_message-message r.workflow_name r.flow_id r.action_name r.action_id h.0.workflow_plain
            h.0.flow_plain h.0.action_plain h.0.id_fits,
        parse_messages-map rs h.1,
        ← h.0.kindless,
      )
      refl
