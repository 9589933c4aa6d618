-- ===== src/MqClient/Kafka.antt =====
-- mq/kafka.go: the messages of a writer and of a reader. JSON of payloads and values is a
-- parameter; an unmarshalling gives what the value becomes and whether there is an error. The
-- topics, brokers and spans are left out; what `ReadMessage` or `FetchMessage` gives is an input,
-- where none is its error.
use sutil.Prelude.{Option, none, some, List, [], ◌∷◌, Bool, true, false}
use sutil.Prelude.Text.{Bytes}
use sutil.MqClient.Payloads.{Payload, Message}

pub record KafkaMessage : Type 0 where
  pub message_key : Bytes
  pub body : Bytes

-- the payload and the value behind a read, and whether there is an error
pub record Decoded (Any : Type 0) (Val : Type 0) : Type 0 where
  pub payload : Payload Any
  pub into : Val
  pub failed : Bool

module _ {Any : Type 0} (marshal_payload : Payload Any → Option Bytes) where
  unfoldable pub message_of : Bytes → Option Bytes → Option KafkaMessage
  message_of k none = none
  message_of k (some msg) = some (record { message_key = k; body = msg })

  -- `KafkaWriter.WriteMsg`: the message for `WriteMessages`
  unfoldable pub kafka_write_msg : Bytes → Payload Any → Option KafkaMessage
  unfolding message_of
  kafka_write_msg k v = message_of k (marshal_payload v)

  unfoldable pub message_onto :
      Option KafkaMessage → Option (List KafkaMessage) → Option (List KafkaMessage)
  message_onto (some msg) (some kmsgs) = some (msg ∷ kmsgs)
  message_onto _ _ = none

  -- `KafkaWriter.WriteMsgs`
  unfoldable pub kafka_write_msgs : List (Message (Payload Any)) → Option (List KafkaMessage)
  unfolding message_onto message_of
  kafka_write_msgs [] = some []
  kafka_write_msgs (msg ∷ msgs) =
      message_onto (message_of msg.key (marshal_payload msg.content)) (kafka_write_msgs msgs)

module _ {Any Val : Type 0} (unmarshal_payload : Bytes → Payload Any → Payload Any × Bool)
    (unmarshal : Bytes → Val → Val × Bool) where
  unfoldable pub decode_value : Bytes → Payload Any × Bool → Val → Decoded Any Val
  decode_value body (p, true) ov = record { payload = p; into = ov; failed = true }
  decode_value body (p, false) ov =
      let (after, error) = unmarshal body ov in record { payload = p; into = after; failed = error }

  -- the two calls of `json.Unmarshal`, both on the whole body
  unfoldable pub decode_body : Bytes → Payload Any → Val → Decoded Any Val
  unfolding decode_value
  decode_body body v ov = decode_value body (unmarshal_payload body v) ov

  -- `KafkaReader.ReadMsg`
  unfoldable pub kafka_read_msg : Option KafkaMessage → Payload Any → Val → Decoded Any Val
  unfolding decode_body
  kafka_read_msg none v ov = record { payload = v; into = ov; failed = true }
  kafka_read_msg (some msg) v ov = decode_body msg.body v ov

  -- the handler holds the message
  unfoldable pub handler_of : KafkaMessage → Bool → Option KafkaMessage
  handler_of msg true = none
  handler_of msg false = some msg

  -- `KafkaReader.FetchMsg`
  unfoldable pub kafka_fetch_msg :
      Option KafkaMessage → Payload Any → Val → Decoded Any Val × Option KafkaMessage
  unfolding decode_body handler_of
  kafka_fetch_msg none v ov = (record { payload = v; into = ov; failed = true }, none)
  kafka_fetch_msg (some msg) v ov =
      let d = decode_body msg.body v ov in (d, handler_of msg d.failed)
