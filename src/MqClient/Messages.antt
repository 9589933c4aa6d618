-- ===== src/MqClient/Messages.antt =====
-- mq/interface.go: writing and reading messages of Kafka. `writer` and `reader` are what the
-- manager gives, and the time that a call takes is left out.
use sutil.Prelude.{
  Option, none, some, List, [], ◌∷◌, Bool, true, false, ◌==◌, if◌then◌else◌, length,
}
use sutil.Prelude.Text.{Bytes}
use sutil.Prelude.Maps.{Dict}
use sutil.MqClient.{KafkaWriter, KafkaReader}
use sutil.MqClient.Payloads.{
  Payload, generate_payload, generate_msgs_payload, parse_payload, Context, Message, start_span,
}
use sutil.MqClient.Kafka.{
  KafkaMessage, kafka_write_msg, kafka_write_msgs, Decoded, kafka_read_msg, kafka_fetch_msg,
}

-- a call of `WriteMessages`, whose error the caller gets, or an error before it
pub data Writing : Type 0 where
  write_messages : KafkaWriter → List KafkaMessage → Writing
  not_written : Writing

-- what a read gives: the head and the control of the new context, or none where the context is the
-- caller's; the value; and whether there is an error
pub record ReadResult (Any : Type 0) (Val : Type 0) : Type 0 where
  pub context : Option (Any × Any)
  pub result : Val
  pub error : Bool

module _ {Any Val : Type 0} (marshal : Val → Option Bytes)
    (marshal_payload : Payload Any → Option Bytes) where
  unfoldable pub written_by : KafkaWriter → Option (List KafkaMessage) → Writing
  written_by w none = not_written
  written_by w (some msgs) = write_messages w msgs

  unfoldable pub singly : Option KafkaMessage → Option (List KafkaMessage)
  singly none = none
  singly (some msg) = some (msg ∷ [])

  unfoldable pub payload_written : Bytes → Option (Payload Any) → Option KafkaMessage
  unfolding kafka_write_msg
  payload_written key none = none
  payload_written key (some payload) = kafka_write_msg marshal_payload key payload

  -- `WriteMsg`, with the carrier of the span that it starts
  unfoldable pub write_msg : Option KafkaWriter → Dict Bytes → Context Any → Bytes → Val → Writing
  unfolding written_by singly payload_written generate_payload start_span
  write_msg none span ctx key value = not_written
  write_msg (some w) span ctx key value =
      written_by w
        (singly (payload_written key (generate_payload marshal (start_span span ctx) value)))

  unfoldable pub payloads_written :
      Option (List (Message (Payload Any))) → Option (List KafkaMessage)
  unfolding kafka_write_msgs
  payloads_written none = none
  payloads_written (some nmsgs) = kafka_write_msgs marshal_payload nmsgs

  -- `WriteMsgs`, with the carrier of the span that it starts
  unfoldable pub write_msgs :
      Option KafkaWriter → Dict Bytes → Context Any → List (Message Val) → Writing
  unfolding written_by payloads_written generate_msgs_payload start_span
  write_msgs none span ctx msgs = not_written
  write_msgs (some w) span ctx msgs =
      written_by w (payloads_written (generate_msgs_payload marshal (start_span span ctx) msgs))

-- `var payload Payload`
abbrev pub zero_payload : {Any : Type 0} → Any → Payload Any
zero_payload nil_any = record { carrier = []; value = []; head = nil_any; control = nil_any }

module _ {Any Val : Type 0} (unmarshal_payload : Bytes → Payload Any → Payload Any × Bool)
    (unmarshal : Bytes → Val → Val × Bool) (nil_any : Any) where
  unfoldable pub parsed : Payload Any → Val → ReadResult Any Val
  unfolding parse_payload
  parsed payload value =
      let (ctx, after, failed) = parse_payload unmarshal payload value in
      record { context = some ctx; result = after; error = failed }

  -- what follows `ReadMsg` and `FetchMsg`
  unfoldable pub after_read : Decoded Any Val → ReadResult Any Val
  unfolding parsed
  after_read d =
      let parse = parsed d.payload d.into in
      if d.failed
      then record { context = none; result = d.into; error = true }
      else if length d.payload.value == 0
      then record { context = none; result = d.into; error = false }
      else parse

  -- `ReadMsgByGroup` and `ReadMsgByPartition`, which differ in the reader they ask for
  unfoldable pub read_msg : Option KafkaReader → Option KafkaMessage → Val → ReadResult Any Val
  unfolding after_read kafka_read_msg
  read_msg none message value = record { context = none; result = value; error = true }
  read_msg (some r) message value =
      after_read (kafka_read_msg unmarshal_payload unmarshal message (zero_payload nil_any) value)

  -- `FetchMsgByGroup`, with the message of the handler it gives
  unfoldable pub fetch_msg_by_group :
      Option KafkaReader → Option KafkaMessage → Val → ReadResult Any Val × Option KafkaMessage
  unfolding after_read kafka_fetch_msg
  fetch_msg_by_group none message value =
      (record { context = none; result = value; error = true }, none)
  fetch_msg_by_group (some r) message value =
      let (d, handler) =
        kafka_fetch_msg unmarshal_payload unmarshal message (zero_payload nil_any) value in
      (after_read d, handler)
