-- ===== src/MqClient/RoundTrip.antt =====
-- mq/interface.go over mq/kafka.go and mq/trace.go: what a reader makes of what a writer wrote.
use sutil.Prelude.{
  ℕ, Option, some, List, [], ◌∷◌, ◌≡◌, ◌++◌, map, refl, inl, inr, Bool, true, false, arith,
  Option-cases, ap, ◌∙◌,
}
use sutil.Prelude.Text.{Bytes}
use sutil.Prelude.Maps.{Dict}
use sutil.MqClient.Kafka.{
  KafkaMessage, kafka_write_msg, message_of, kafka_write_msgs, decode_value, decode_body,
  kafka_read_msg,
}
use sutil.MqClient.{KafkaWriter, KafkaReader}
use sutil.MqClient.Payloads.{
  Payload, Context, Message, generate_payload, generate_msgs_payload, parse_payload, payload_of,
  start_span,
}
use sutil.MqClient.Messages.{
  Writing, write_msgs, write_messages, write_msg, not_written, read_msg, zero_payload, after_read,
  parsed, payload_written, singly, written_by,
}

unfoldable pub joined_to : List KafkaMessage → Writing → Writing
joined_to msgs (write_messages w rest) = write_messages w (msgs ++ rest)
joined_to msgs not_written = not_written

-- one call of `WriteMessages` with the messages of several, if none of them fails before it
unfoldable pub joined : KafkaWriter → List Writing → Writing
unfolding joined_to
joined w [] = write_messages w []
joined w (write_messages _ msgs ∷ rest) = joined_to msgs (joined w rest)
joined w (not_written ∷ rest) = not_written

module _ {Any Val : Type 0} (marshal : Val → Option Bytes)
    (marshal_payload : Payload Any → Option Bytes) where
  -- `WriteMsgs` sends in one call, in their order and with their keys, the messages that `WriteMsg`
  -- sends for each of its messages, and sends nothing if one of those calls would fail before it,
  -- where the tracer injects the same carrier for the span of each call, as where there is none.
  pub write_msgs-joined :
      (w : KafkaWriter) (span : Dict Bytes) (ctx : Context Any) (msgs : List (Message Val))
      → write_msgs marshal marshal_payload (some w) span ctx msgs
        ≡ joined w (
            map
              (λ msg. write_msg marshal marshal_payload (some w) span ctx msg.key msg.content)
              msgs)
  unfolding write_msgs write_msg joined
  write_msgs-joined w span ctx [] = refl
  write_msgs-joined w span ctx (msg ∷ msgs) =
      let ih = write_msgs-joined w span ctx msgs in
      let sctx = start_span span ctx in
      elim (Option-cases (generate_payload marshal sctx msg.content)) [
        | inl e ↦ ground (arith, e, ih)
        | inr (p, e) ↦ elim (Option-cases (generate_msgs_payload marshal sctx msgs)) [
          | inl f ↦ ground (arith, e, f, ih, Option-cases (marshal_payload p))
          | inr (ps, f) ↦ ground (
            arith,
            e,
            f,
            ih,
            Option-cases (marshal_payload p),
            Option-cases (kafka_write_msgs marshal_payload ps),
          )
        ]
      ]

  module _ (unmarshal_payload : Bytes → Payload Any → Payload Any × Bool)
      (unmarshal : Bytes → Val → Val × Bool) (nil_any : Any) where
    -- What `WriteMsg` sends is read as the value that was written, with the head and the control of
    -- the writer's context as JSON gives them back, where marshalling the value gives a text that is
    -- not empty and unmarshals to the value from the reader's variable, the payload with that text,
    -- its carrier, head and control is marshalled to a body that unmarshals to it again, and the
    -- variable takes that body itself without an error and without a change.
    pub read_msg-write_msg :
        (w : KafkaWriter) (r : KafkaReader) (span : Dict Bytes) (ctx : Context Any)
        (again : Any → Any) (key : Bytes) (v blank : Val) (c : ℕ) (text body : Bytes)
        → marshal v ≡ some (c ∷ text)
        → unmarshal (c ∷ text) blank ≡ (v, false)
        → marshal_payload (record {
          carrier = span;
          value = c ∷ text;
          head = ctx.context_head;
          control = ctx.context_control;
        })
          ≡ some body
        → unmarshal_payload body (zero_payload nil_any) ≡ (
          record {
            carrier = span;
            value = c ∷ text;
            head = again ctx.context_head;
            control = again ctx.context_control;
          },
          false,
        )
        → unmarshal body blank ≡ (blank, false)
        → let msg : KafkaMessage = record { message_key = key; body = body } in
          (write_msg marshal marshal_payload (some w) span ctx key v ≡ write_messages w (msg ∷ []))
          × (read_msg unmarshal_payload unmarshal nil_any (some r) (some msg) blank ≡ record {
            context = some (again ctx.context_head, again ctx.context_control);
            result = v;
            error = false;
          })
    unfolding write_msg read_msg after_read decode_body decode_value parsed parse_payload
        generate_payload payload_of start_span payload_written kafka_write_msg message_of singly
        written_by
    read_msg-write_msg w r span ctx again key v blank c text body hv hu hp hq he =
        (rw (hv, hp) refl, rw (hq, he, hu) (ground arith))

    decode_value_refused :
        (body : Bytes) (decoded : Payload Any × Bool) (ov : Val)
        → (unmarshal body ov).1 ≡ true
        → (decode_value unmarshal_payload unmarshal body decoded ov).failed ≡ true
    unfolding decode_value
    decode_value_refused body (p, true) ov h = refl
    decode_value_refused body (p, false) ov h = h

    read_msg_failed :
        (r : KafkaReader) (msg : KafkaMessage) (blank : Val)
        → (unmarshal msg.body blank).1 ≡ true
        → (read_msg unmarshal_payload unmarshal nil_any (some r) (some msg) blank).error ≡ true
    unfolding read_msg after_read kafka_read_msg decode_body
    read_msg_failed r msg blank h =
        rw
          (decode_value_refused msg.body (unmarshal_payload msg.body (zero_payload nil_any)) blank
            h)
          refl

    -- Where the variable refuses the JSON of every payload, as one that takes no object does, a
    -- read of what `WriteMsg` sent gives an error, whatever the value.
    pub read_msg_refused :
        (w : KafkaWriter) (r : KafkaReader) (span : Dict Bytes) (ctx : Context Any) (key : Bytes)
        (v blank : Val) (msg : KafkaMessage)
        → ((p : Payload Any) (body : Bytes)
            → marshal_payload p ≡ some body
            → (unmarshal body blank).1 ≡ true)
        → write_msg marshal marshal_payload (some w) span ctx key v ≡ write_messages w (msg ∷ [])
        → (read_msg unmarshal_payload unmarshal nil_any (some r) (some msg) blank).error ≡ true
    unfolding write_msg read_msg
    read_msg_refused w r span ctx key v blank msg refuses h =
        elim (Option-cases (generate_payload marshal (start_span span ctx) v)) [
          | inl e ↦ absurd (ground (arith, e, h))
          | inr (p, e) ↦ elim (Option-cases (marshal_payload p)) [
            | inl f ↦ absurd (ground (arith, e, f, h))
            | inr (b, f) ↦
                let q : b ≡ msg.body = ground (arith, e, f, h) in
                read_msg_failed r msg blank (refuses p msg.body (f ∙ ap some q))
          ]
        ]
