-- ===== src/MqClient/Tests.antt =====
-- Concrete messages, and a center that configures one topic.
use sutil.Prelude.{
  ℕ, Option, none, some, List, [], ◌∷◌, ◌≡◌, refl, Bool, true, false, map, arith, leb, ◌==◌,
  if◌then◌else◌, ◌≢◌,
}
use sutil.Prelude.Text.{Bytes, codes, text_eq, split}
use sutil.MqClient.Payloads.{Payload, Context, generate_payload, Message, payload_of, start_span}
use sutil.MqClient.{KafkaWriter, KafkaReader, Instance, writing}
use sutil.MqClient.Kafka.{KafkaMessage, kafka_write_msg, message_of}
use sutil.MqClient.Messages.{
  write_msg, read_msg, write_msgs, write_messages, payload_written, singly, written_by,
}
use sutil.MqDelay.{DelayClient, Reply, http_invoke, read, returned, http_response, done, absent}
use sutil.MqClient.Delayed.{Job, read_delay_msg, delayed, delayed_panics, fetch_delay_msg}
use sutil.Mq.{
  pos, negsuc, ℤ, InstanceConf, KeyParts, conf_from_string, is_affected, apply_change, writer,
}
use sutil.MqClient.RoundTrip.{joined, read_msg-write_msg, write_msgs-joined}
use sutil.MqClient.Acknowledge.{read_delay_msg_lost, refused_read_panics}
use sutil.Prelude.Maps.{Dict, lookup}
use sutil.MqClient.Groups.{kept_in, kafka_topic, reload-ne}
use sutil.MqConfig.{get_config, build_key}

abbrev a_span : Dict Bytes
a_span = (codes "trace", codes "7") ∷ []

-- A payload is marshalled to its value behind a brace, and a text of digits is a value.
abbrev marshal : Bytes → Option Bytes
marshal v = some v

abbrev marshal_payload : Payload ℕ → Option Bytes
marshal_payload p = some (b'{' ∷ p.value)

-- with the carrier, the head and the control that every payload here has
abbrev with_value : Payload ℕ → Bytes → Payload ℕ
with_value p v = record p { carrier = a_span; value = v }

abbrev unmarshal_payload : Bytes → Payload ℕ → Payload ℕ × Bool
unmarshal_payload [] p = (p, true)
unmarshal_payload (c ∷ s) p = (with_value p s, false)

-- a structure, which an object without its fields leaves as it is
abbrev unmarshal : Bytes → Bytes → Bytes × Bool
unmarshal [] v = (v, true)
unmarshal (c ∷ s) v = if c == b'{' then (v, false) else (c ∷ s, false)

-- a number, which takes no object
abbrev unmarshal_number : Bytes → Bytes → Bytes × Bool
unmarshal_number [] v = (v, true)
unmarshal_number (c ∷ s) v = if c == b'{' then (v, true) else (c ∷ s, false)

abbrev a_writer : KafkaWriter
a_writer = record { brokers = codes "b:1" ∷ []; written_topic = codes "t" }

abbrev a_reader : KafkaReader
a_reader = record {
  brokers = codes "b:1" ∷ [];
  read_topic = codes "t";
  group_id = codes "g";
  partition = pos 0;
  commit_interval = 1;
}

abbrev a_context : Context ℕ
a_context = record { span_carrier = []; context_head = 1; context_control = 2 }

abbrev a_message : KafkaMessage
a_message = record { message_key = codes "k"; body = codes "{42" }

read_msg-write_msg_example :
    (write_msg marshal marshal_payload (some a_writer) a_span a_context (codes "k") (codes "42")
      ≡ write_messages a_writer (a_message ∷ []))
    × (read_msg unmarshal_payload unmarshal 0 (some a_reader) (some a_message) []
        ≡ record { context = some (0, 0); result = codes "42"; error = false })
read_msg-write_msg_example =
    read_msg-write_msg marshal marshal_payload unmarshal_payload unmarshal 0 a_writer a_reader
      a_span a_context (λ x. 0) (codes "k") (codes "42") [] b'4' (codes "2") (codes "{42") refl refl
      refl refl refl

writes :
    write_msg marshal marshal_payload (some a_writer) a_span a_context (codes "k") (codes "42")
    ≡ write_messages a_writer (a_message ∷ [])
unfolding write_msg generate_payload payload_of start_span payload_written kafka_write_msg
    message_of singly written_by
writes = refl

refuses_object :
    (p : Payload ℕ) (body : Bytes)
    → marshal_payload p ≡ some body
    → (unmarshal_number body []).1 ≡ true
refuses_object p [] h = absurd (ground (arith, h))
refuses_object p (c ∷ s) h = ground (arith, h)

abbrev two_messages : List (Message Bytes)
two_messages =
    record { key = codes "a"; content = codes "1" }
    ∷ record { key = codes "b"; content = codes "2" }
    ∷ []

write_msgs-joined_example :
    write_msgs marshal marshal_payload (some a_writer) a_span a_context two_messages
    ≡ joined a_writer (
        map
          (λ msg.
            write_msg marshal marshal_payload (some a_writer) a_span a_context msg.key msg.content)
          two_messages)
write_msgs-joined_example =
    write_msgs-joined marshal marshal_payload a_writer a_span a_context two_messages

abbrev a_client : DelayClient
a_client = record {
  endpoint = codes "e";
  namespace = codes "n";
  queue = codes "q";
  ttl_seconds = 1;
  tries = 1;
  ttr_seconds = 1;
}

abbrev a_job : Job
a_job = record { id = codes "j"; job_body = codes "{x" }

abbrev bad_payload : Payload ℕ
bad_payload = record { carrier = a_span; value = codes "x"; head = 0; control = 0 }

-- only objects and digits are JSON
abbrev unmarshal_digit : Bytes → Bytes → Bytes × Bool
unmarshal_digit [] v = (v, true)
unmarshal_digit (c ∷ s) v =
    if c == b'{' then (v, false) else if leb c b'9' then (c ∷ s, false) else (v, true)

read_delay_msg_lost_example :
    read_delay_msg unmarshal_payload unmarshal_digit 0
      (some a_client)
      (returned (some a_job) false)
      (λ id. done tt)
      []
    ≡ delayed (record { context = some (0, 0); result = []; error = false }) none (some (done tt))
read_delay_msg_lost_example =
    read_delay_msg_lost unmarshal_payload unmarshal_digit 0 a_client a_job (λ id. done tt) [] [] []
      bad_payload b'x' [] refl refl refl refl refl

abbrev refusal : Reply Job
refusal = record { new_ret = some (negsuc 0); new_msg = some (codes "full"); new_job = absent }

abbrev parse_refusal : Bytes → Option (Reply Job)
parse_refusal body = some refusal

invoked : http_invoke parse_refusal (http_response 200 []) ≡ some refusal
unfolding http_invoke
invoked = refl

refused_read_panics_example :
    let outcome = read (codes "no") parse_refusal (http_response 200 [] ∷ []) in
    (read_delay_msg unmarshal_payload unmarshal 0 (some a_client) outcome (λ id. done tt) []
      ≡ delayed_panics)
    × (fetch_delay_msg unmarshal_payload unmarshal 0 (some a_client) outcome [] ≡ delayed_panics)
refused_read_panics_example =
    refused_read_panics unmarshal_payload unmarshal 0 a_client (codes "no") parse_refusal
      (http_response 200 []) [] refusal (codes "full") (λ id. done tt) [] invoked refl
      (ground arith) refl

-- brokers for the topic "t" in the group "lane" and in the default one
abbrev center : Bytes → Option Bytes
center k =
    if text_eq k (codes "t.lane.kafka.brokers")
    then some (codes "l:1")
    else if text_eq k (codes "t.default.kafka.brokers")
    then some (codes "d:1")
    else none

abbrev no_time : Bytes → Option ℕ
no_time s = none

abbrev offset_kept : KafkaReader → ℕ → Bool
offset_kept r t = true

-- the empty text is 0, and every other is 1
abbrev atoi : Bytes → Option ℤ
atoi [] = some (pos 0)
atoi (c ∷ s) = some (pos 1)

abbrev lane_conf : InstanceConf
lane_conf = record {
  group = codes "lane";
  role = writer;
  topic = codes "t";
  group_id = [];
  partition = pos 0;
}

abbrev lane_writer : KafkaWriter
lane_writer = record { brokers = codes "l:1" ∷ []; written_topic = codes "t_lane" }

abbrev default_writer : KafkaWriter
default_writer = record { brokers = codes "d:1" ∷ []; written_topic = codes "t" }

abbrev lane_key : Bytes
lane_key = codes "lane-1-t--"

abbrev lane_changed : KeyParts
lane_changed = record { key_group = codes "lane"; key_topic = codes "t" }

lane_made :
    kept_in center no_time offset_kept (some (codes "lane")) lane_conf ≡ some (writing lane_writer)
unfolding kept_in get_config split text_eq build_key
lane_made = refl

default_made : kept_in center no_time offset_kept none lane_conf ≡ some (writing default_writer)
unfolding kept_in get_config split text_eq build_key
default_made = refl

lane_key_read : conf_from_string atoi lane_key ≡ some lane_conf
unfolding conf_from_string split
lane_key_read = refl

lane_affected : is_affected (kept_in center no_time offset_kept none) lane_changed lane_conf ≡ true
unfolding is_affected text_eq
lane_affected = refl

abbrev lane_instances : Dict Instance
lane_instances = (lane_key, writing lane_writer) ∷ []

lane_kept : lookup lane_key lane_instances ≡ some (writing lane_writer)
unfolding lookup text_eq
lane_kept = refl

lane_topic : kafka_topic (writing lane_writer) ≡ some (codes "t_lane")
unfolding kafka_topic
lane_topic = refl

default_topic : kafka_topic (writing default_writer) ≡ some (codes "t")
unfolding kafka_topic
default_topic = refl

reload-ne_example :
    (lookup lane_key (
        apply_change
          (kept_in center no_time offset_kept none)
          atoi
          (some lane_changed)
          lane_instances)
      ≡ some (writing default_writer))
    × (codes "t" ≢ codes "t_lane")
reload-ne_example =
    reload-ne center no_time offset_kept atoi lane_changed lane_key lane_conf b'l' (codes "ane")
      (writing lane_writer) (writing default_writer) (codes "t_lane") (codes "t") lane_instances
      lane_made lane_kept lane_key_read lane_affected lane_topic default_made default_topic
