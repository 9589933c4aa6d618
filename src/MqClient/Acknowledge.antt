-- ===== src/MqClient/Acknowledge.antt =====
-- mq/interface.go over mq/delay.go: when a read of the delay queue acknowledges its job, gives an
-- error, or panics.
use sutil.Prelude.{
  ℕ, Option, none, some, List, ◌∷◌, ◌≡◌, refl, ◌≢◌, ◌↔◌, ◌⊎◌, Bool, true, false, arith, ap, ◌∙◌,
}
use sutil.MqDelay.{
  Answer, failed, DelayClient, done, returned, Reply, HttpResult, http_invoke, read, read_loop,
  after_invoke, on_res, unmarshal_into,
}
use sutil.Prelude.Text.{Bytes, text_eq_iff}
use sutil.MqClient.Delayed.{
  DelayedRead, delayed, parsed_quietly, acknowledged, read_delay_msg, early, on_job,
  fetch_delay_msg, delayed_waits, Job, delayed_panics,
}
use sutil.MqClient.Payloads.{Payload, parse_payload}
use sutil.MqClient.Kafka.{Decoded, decode_body, decode_value}
use sutil.Mq.{negsuc}
use sutil.MqClient.Messages.{zero_payload}

unfoldable pub error_of : {Any Val : Type 0} → DelayedRead Any Val → Bool
error_of delayed_waits = false
error_of delayed_panics = false
error_of (delayed res handler answer) = res.error

read-refusal :
    (not_found : Bytes) (parse : Bytes → Option (Reply Job)) (result : HttpResult)
    (rest : List HttpResult) (reply : Reply Job) (m : Bytes)
    → http_invoke parse result ≡ some reply
    → reply.new_msg ≡ some m
    → m ≢ not_found
    → reply.new_ret ≡ some (negsuc 0)
    → read not_found parse (result ∷ rest) ≡ returned none false
unfolding read read_loop after_invoke on_res unmarshal_into
read-refusal not_found parse result rest reply m hi hm hn hr =
    rw (hi, hm, hr) (ground (arith, hn, text_eq_iff m not_found))

module _ {Any Val : Type 0} (unmarshal_payload : Bytes → Payload Any → Payload Any × Bool)
    (unmarshal : Bytes → Val → Val × Bool) (nil_any : Any) where
  quiet-error :
      (p : Payload Any) (v : Val)
      → (parsed_quietly unmarshal_payload unmarshal nil_any p v).error ≡ false
  unfolding parsed_quietly
  quiet-error p v = ground arith

  quiet_result :
      (p : Payload Any) (w u : Val) (c : ℕ) (text : Bytes)
      → p.value ≡ c ∷ text
      → unmarshal (c ∷ text) w ≡ (u, true)
      → parsed_quietly unmarshal_payload unmarshal nil_any p w
        ≡ record { context = some (p.head, p.control); result = u; error = false }
  unfolding parsed_quietly parse_payload
  quiet_result p w u c text ht hu = rw (ht, hu) (ground arith)

  decoded :
      (body : Bytes) (v w : Val) (p : Payload Any)
      → unmarshal_payload body (zero_payload nil_any) ≡ (p, false)
      → unmarshal body v ≡ (w, false)
      → decode_body unmarshal_payload unmarshal body (zero_payload nil_any) v
        ≡ record { payload = p; into = w; failed = false }
  unfolding decode_body decode_value
  decoded body v w p hp hv = rw (hp, hv) refl

  acknowledged_iff :
      (answer : Answer (Unit {0})) (d : Decoded Any Val)
      → (error_of (acknowledged unmarshal_payload unmarshal nil_any answer d) ≡ true)
        ↔ ((d.failed ≡ true) ⊎ (answer ≡ failed))
  unfolding acknowledged error_of early
  acknowledged_iff (done a) d = ground (arith, quiet-error d.payload d.into)
  acknowledged_iff failed d = ground arith

  -- For a job, `ReadDelayMsg` gives an error exactly if one of the two unmarshallings of the job's
  -- body fails or the acknowledgement does. That the payload's value unmarshals is no part of it.
  pub read_delay_msg_iff :
      (client : DelayClient) (job : Job) (ack_of : Bytes → Answer (Unit {0})) (v : Val)
      → (error_of (
            read_delay_msg unmarshal_payload unmarshal nil_any
              (some client)
              (returned (some job) false)
              ack_of
              v)
          ≡ true)
        ↔ (((decode_body unmarshal_payload unmarshal job.job_body (zero_payload nil_any) v).failed
              ≡ true)
            ⊎ (ack_of job.id ≡ failed))
  unfolding read_delay_msg on_job
  read_delay_msg_iff client job ack_of v =
      acknowledged_iff (ack_of job.id)
        (decode_body unmarshal_payload unmarshal job.job_body (zero_payload nil_any) v)

  -- A job whose payload has a value that does not unmarshal is acknowledged, and `ReadDelayMsg`
  -- gives no error and leaves in the variable what the failed unmarshalling left, where the body
  -- unmarshals and the acknowledgement is accepted.
  pub read_delay_msg_lost :
      (client : DelayClient) (job : Job) (ack_of : Bytes → Answer (Unit {0})) (v w u : Val)
      (p : Payload Any) (c : ℕ) (text : Bytes)
      → unmarshal_payload job.job_body (zero_payload nil_any) ≡ (p, false)
      → unmarshal job.job_body v ≡ (w, false)
      → p.value ≡ c ∷ text
      → unmarshal (c ∷ text) w ≡ (u, true)
      → ack_of job.id ≡ done tt
      → read_delay_msg unmarshal_payload unmarshal nil_any
          (some client)
          (returned (some job) false)
          ack_of
          v
        ≡ delayed
            (record { context = some (p.head, p.control); result = u; error = false })
            none
            (some (done tt))
  unfolding read_delay_msg on_job acknowledged
  read_delay_msg_lost client job ack_of v w u p c text hp hv ht hu ha =
      ap (acknowledged unmarshal_payload unmarshal nil_any (ack_of job.id))
        (decoded job.job_body v w p hp hv)
      ∙ rw ha (ap (λ res. delayed res none (some (done tt))) (quiet_result p w u c text ht hu))

  -- Where the service answers a request with a refusal, a return value of -1 and a text that is not
  -- the one for "nothing found", both reads panic.
  pub refused_read_panics :
      (client : DelayClient) (not_found : Bytes) (parse : Bytes → Option (Reply Job))
      (result : HttpResult) (rest : List HttpResult) (reply : Reply Job) (m : Bytes)
      (ack_of : Bytes → Answer (Unit {0})) (v : Val)
      → http_invoke parse result ≡ some reply
      → reply.new_msg ≡ some m
      → m ≢ not_found
      → reply.new_ret ≡ some (negsuc 0)
      → let outcome = read not_found parse (result ∷ rest) in
        (read_delay_msg unmarshal_payload unmarshal nil_any (some client) outcome ack_of v
          ≡ delayed_panics)
        × (fetch_delay_msg unmarshal_payload unmarshal nil_any (some client) outcome v
            ≡ delayed_panics)
  unfolding read_delay_msg fetch_delay_msg on_job
  refused_read_panics client not_found parse result rest reply m ack_of v hi hm hn hr =
      let e = read-refusal not_found parse result rest reply m hi hm hn hr in (rw e refl, rw e refl)
