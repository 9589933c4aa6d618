-- ===== src/MqClient/Payloads.antt =====
-- mq/trace.go: the payload that carries a value, and its contents behind a read. JSON is a
-- parameter: what a value is marshalled to, and what unmarshalling does to the value that is there.
-- So are the carriers that the tracer injects and the values of a context. Of a span only its
-- carrier is kept.
use sutil.Prelude.{Option, none, some, List, [], ◌∷◌, Bool}
use sutil.Prelude.Text.{Bytes}
use sutil.Prelude.Maps.{Dict}

-- `Payload`, with the carrier as a map and the types of the head and the control open
pub record Payload (Any : Type 0) : Type 0 where
  pub carrier : Dict Bytes
  pub value : Bytes
  pub head : Any
  pub control : Any

-- what the code reads of a context: the carrier that the tracer injects, and the two values
pub record Context (Any : Type 0) : Type 0 where
  pub span_carrier : Dict Bytes
  pub context_head : Any
  pub context_control : Any

pub record Message (V : Type 0) : Type 0 where
  pub key : Bytes
  pub content : V

module _ {Any : Type 0} where
  -- `StartSpanFromContext`, with the carrier that the tracer injects for the new span
  unfoldable pub start_span : Dict Bytes → Context Any → Context Any
  start_span span ctx = record ctx { span_carrier = span }

  unfoldable pub payload_of : Context Any → Option Bytes → Option (Payload Any)
  payload_of ctx none = none
  payload_of ctx (some msg) = some (record {
    carrier = ctx.span_carrier;
    value = msg;
    head = ctx.context_head;
    control = ctx.context_control;
  })

  module _ {Val : Type 0} (marshal : Val → Option Bytes) where
    -- `generatePayload`
    unfoldable pub generate_payload : Context Any → Val → Option (Payload Any)
    unfolding payload_of
    generate_payload ctx value = payload_of ctx (marshal value)

    unfoldable pub payload_onto :
        Bytes
        → Option (Payload Any)
        → Option (List (Message (Payload Any)))
        → Option (List (Message (Payload Any)))
    payload_onto key (some p) (some nmsgs) = some (record { key = key; content = p } ∷ nmsgs)
    payload_onto key _ _ = none

    -- `generateMsgsPayload`
    unfoldable pub generate_msgs_payload :
        Context Any → List (Message Val) → Option (List (Message (Payload Any)))
    unfolding payload_onto generate_payload
    generate_msgs_payload ctx [] = some []
    generate_msgs_payload ctx (msg ∷ msgs) =
        payload_onto msg.key (generate_payload ctx msg.content) (generate_msgs_payload ctx msgs)

  -- `json.Unmarshal` into a value: what the value becomes, and whether there is an error
  module _ {Val : Type 0} (unmarshal : Bytes → Val → Val × Bool) where
    -- `parsePayload`: the head and the control of the context that it gives, the value, and whether
    -- there is an error
    unfoldable pub parse_payload : Payload Any → Val → (Any × Any) × Val × Bool
    parse_payload payload value =
        let (after, failed) = unmarshal payload.value value in
        ((payload.head, payload.control), after, failed)
