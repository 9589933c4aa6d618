-- ===== src/MqClient/Delayed.antt =====
-- mq/interface.go: messages of the delay queue. `client` is what the manager gives, and the answers
-- of the delay queue's service are those of MqDelay.
use sutil.Prelude.{Option, none, some, Bool, true, false, ◌==◌, if◌then◌else◌, length}
use sutil.Prelude.Text.{Bytes}
use sutil.Prelude.Maps.{Dict}
use sutil.MqClient.Messages.{ReadResult, zero_payload}
use sutil.MqClient.Payloads.{Payload, generate_payload, parse_payload, Context, start_span}
use sutil.MqDelay.{Answer, failed, DelayClient, ReadOutcome, done, returned, waits}
use sutil.MqClient.Kafka.{Decoded, decode_body}

pub record Job : Type 0 where
  pub id : Bytes
  pub job_body : Bytes

-- A read waits, panics, or returns: the context, the value and the error of a `ReadResult`, the job
-- of the handler that it gives, and the answer to its `Ack`, where it calls it.
pub data DelayedRead (Any : Type 0) (Val : Type 0) : Type 0 where
  delayed_waits : DelayedRead Any Val
  delayed_panics : DelayedRead Any Val
  delayed : ReadResult Any Val → Option Bytes → Option (Answer (Unit {0})) → DelayedRead Any Val

unfoldable pub body_of :
    {Any : Type 0} → (Payload Any → Option Bytes) → Option (Payload Any) → Option Bytes
body_of marshal_payload none = none
body_of marshal_payload (some payload) = marshal_payload payload

unfoldable pub published : (Bytes → Answer Bytes) → Option Bytes → Answer Bytes
published publish none = failed
published publish (some body) = publish body

-- `WriteDelayMsg`, with the carrier of the span that it starts: the body that it publishes, or an
-- error before that; its result is that of `write`
unfoldable pub delay_body :
    {Any Val : Type 0}
    → (Val → Option Bytes)
    → (Payload Any → Option Bytes)
    → Option DelayClient
    → Dict Bytes
    → Context Any
    → Val
    → Option Bytes
unfolding generate_payload body_of start_span
delay_body marshal marshal_payload none span ctx value = none
delay_body marshal marshal_payload (some client) span ctx value =
    body_of marshal_payload (generate_payload marshal (start_span span ctx) value)

unfoldable pub write_delay_msg :
    {Any Val : Type 0}
    → (Val → Option Bytes)
    → (Payload Any → Option Bytes)
    → (Bytes → Answer Bytes)
    → Option DelayClient
    → Dict Bytes
    → Context Any
    → Val
    → Answer Bytes
unfolding delay_body published
write_delay_msg marshal marshal_payload publish client span ctx value =
    published publish (delay_body marshal marshal_payload client span ctx value)

module _ {Any Val : Type 0} (unmarshal_payload : Bytes → Payload Any → Payload Any × Bool)
    (unmarshal : Bytes → Val → Val × Bool) (nil_any : Any) where
  unfoldable pub early : Val → DelayedRead Any Val
  early value = delayed (record { context = none; result = value; error = true }) none none

  -- a parsed payload, whose error is dropped
  unfoldable pub parsed_quietly : Payload Any → Val → ReadResult Any Val
  unfolding parse_payload
  parsed_quietly payload value =
      let (ctx, after, _) = parse_payload unmarshal payload value in
      if length payload.value == 0
      then record { context = none; result = value; error = false }
      else record { context = some ctx; result = after; error = false }

  -- `FetchDelayMsg` behind the two calls of `json.Unmarshal` on the body of a job
  unfoldable pub fetched : Bytes → Decoded Any Val → DelayedRead Any Val
  unfolding early parsed_quietly
  fetched job_id d =
      if d.failed
      then early d.into
      else delayed (parsed_quietly d.payload d.into) (some job_id) none

  -- `ReadDelayMsg` behind them
  unfoldable pub acknowledged : Answer (Unit {0}) → Decoded Any Val → DelayedRead Any Val
  unfolding early parsed_quietly
  acknowledged answer d = if d.failed then early d.into else elim answer [
    | done a ↦ delayed (parsed_quietly d.payload d.into) none (some (done a))
    | failed ↦ delayed (record { context = none; result = d.into; error = true }) none (some failed)
  ]

  -- what `Read` gives; a job that is nil has no body
  unfoldable pub on_job : ReadOutcome Job → (Job → DelayedRead Any Val) → Val → DelayedRead Any Val
  unfolding early
  on_job waits after value = delayed_waits
  on_job (returned _ true) after value = early value
  on_job (returned none false) after value = delayed_panics
  on_job (returned (some job) false) after value = after job

  unfoldable pub fetch_delay_msg : Option DelayClient → ReadOutcome Job → Val → DelayedRead Any Val
  unfolding on_job fetched decode_body early
  fetch_delay_msg none outcome value = early value
  fetch_delay_msg (some client) outcome value =
      on_job outcome
        (λ job.
          fetched job.id
            (decode_body unmarshal_payload unmarshal job.job_body (zero_payload nil_any) value))
        value

  unfoldable pub read_delay_msg :
      Option DelayClient → ReadOutcome Job → (Bytes → Answer (Unit {0})) → Val → DelayedRead Any Val
  unfolding on_job acknowledged decode_body early
  read_delay_msg none outcome ack_of value = early value
  read_delay_msg (some client) outcome ack_of value =
      on_job outcome
        (λ job.
          acknowledged (ack_of job.id)
            (decode_body unmarshal_payload unmarshal job.job_body (zero_payload nil_any) value))
        value
