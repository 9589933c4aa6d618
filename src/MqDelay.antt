-- ===== src/MqDelay.antt =====
-- mq/delay.go: the client of the delay queue. The HTTP client, the JSON decoding and the service's
-- text for "nothing found" are parameters; what the service answers, one result for each request, is
-- the input of a call. Spans are left out, and of an error only that there is one is kept.
pub mod Reading
pub mod Topics
mod Tests
use sutil.Prelude.Text.{Bytes, text_eq, last_index}
use sutil.Mq.{ℤ, pos, negsuc}
use sutil.MqConfig.{Config, get_config, delay}
use sutil.Prelude.{
  ℕ, zero, suc, Bool, true, false, Option, none, some, List, [], ◌∷◌, ◌==◌, if◌then◌else◌, take,
  drop,
}

pub record DelayClient : Type 0 where
  pub endpoint : Bytes
  pub namespace : Bytes
  pub queue : Bytes
  pub ttl_seconds : ℕ
  pub tries : ℕ
  pub ttr_seconds : ℕ

unfoldable pub new_delay_client : Bytes → Bytes → Bytes → ℕ → ℕ → ℕ → DelayClient
new_delay_client endpoint namespace queue ttl_seconds ttr_seconds tries = record {
  endpoint = endpoint;
  namespace = namespace;
  queue = queue;
  ttl_seconds = ttl_seconds;
  tries = tries;
  ttr_seconds = ttr_seconds;
}

abbrev pub cut_at : Bytes → Option ℕ → Option (Bytes × Bytes)
cut_at topic none = none
cut_at topic (some i) = some (take i topic, drop (suc i) topic)

-- `parseTopic`: the namespace and the queue
unfoldable pub parse_topic : Bytes → Option (Bytes × Bytes)
parse_topic topic = cut_at topic (last_index topic b'.')

-- a client, an error, or a panic
pub data Created : Type 0 where
  created : DelayClient → Created
  refused : Created
  panics : Created

unfoldable pub create_at : List Bytes → Config → Option (Bytes × Bytes) → Created
unfolding new_delay_client
create_at addrs config none = refused
create_at [] config (some (namespace, queue)) = panics
create_at (addr ∷ addrs) config (some (namespace, queue)) =
    created (new_delay_client addr namespace queue config.ttl config.ttr config.tries)

unfoldable pub create_for : Bytes → Option Config → Created
unfolding create_at parse_topic
create_for topic none = refused
create_for topic (some config) = create_at config.mq_addr config (parse_topic topic)

-- `NewDefaultDelayClient`, with the configuration center and the group of the context
unfoldable pub new_default_delay_client : (Bytes → Option Bytes) → Option Bytes → Bytes → Created
unfolding create_for
new_default_delay_client center group topic = create_for topic (get_config center group topic delay)

-- what a request comes to
pub data HttpResult : Type 0 where
  http_error : HttpResult
  http_response : ℕ → Bytes → HttpResult

-- the outcome of `Write` and of `Ack`
pub data Answer {ℓ} (A : Type ℓ) : Type ℓ where
  done : A → Answer A
  failed : Answer A

-- `httpInvoke`: the decoded body of a response with the code 200
unfoldable pub http_invoke {ℓ} : {R : Type ℓ} → (Bytes → Option R) → HttpResult → Option R
http_invoke parse http_error = none
http_invoke parse (http_response code body) = if code == 200 then parse body else none

abbrev pub is_minus_one : ℤ → Bool
is_minus_one (negsuc zero) = true
is_minus_one (negsuc (suc n)) = false
is_minus_one (pos n) = false

-- a decoded `writeRes`; the body starts from the zero value, so what is absent is zero or empty
pub record WriteRes : Type 0 where
  pub write_ret : ℤ
  pub write_msg : Bytes
  pub job_id : Bytes

unfoldable pub written : Option WriteRes → Answer Bytes
written none = failed
written (some res) = if is_minus_one res.write_ret then failed else done res.job_id

-- `Write`, behind the encoding of the value
unfoldable pub write : (Bytes → Option WriteRes) → HttpResult → Answer Bytes
unfolding written http_invoke
write parse result = written (http_invoke parse result)

unfoldable pub acked : Option ℤ → Answer (Unit {0})
acked none = failed
acked (some ret) = if is_minus_one ret then failed else done tt

-- `Ack`, where `parse` gives the field `ret`
unfoldable pub ack : (Bytes → Option ℤ) → HttpResult → Answer (Unit {0})
unfolding acked http_invoke
ack parse result = acked (http_invoke parse result)

-- the field `job` of a body: absent, null, or an object, which is decoded over the job that is there
pub data JobField (Job : Type 0) : Type 0 where
  absent : JobField Job
  null : JobField Job
  object : (Option Job → Job) → JobField Job

pub record ReadRes (Job : Type 0) : Type 0 where
  pub ret : ℤ
  pub msg : Bytes
  pub job : Option Job

-- the fields of a body; none is a field that is absent
pub record Reply (Job : Type 0) : Type 0 where
  pub new_ret : Option ℤ
  pub new_msg : Option Bytes
  pub new_job : JobField Job

abbrev pub over {ℓ} : {A : Type ℓ} → Option A → A → A
over none old = old
over (some new) old = new

-- `waits` where the answers are used up; otherwise the job, if any, and whether there is an error
pub data ReadOutcome (Job : Type 0) : Type 0 where
  waits : ReadOutcome Job
  returned : Option Job → Bool → ReadOutcome Job

module _ {Job : Type 0} where
  abbrev pub zero_res : ReadRes Job
  zero_res = record { ret = pos 0; msg = []; job = none }

  abbrev pub over_job : JobField Job → Option Job → Option Job
  over_job absent old = old
  over_job null old = none
  over_job (object decode) old = some (decode old)

  -- `json.Unmarshal(resData, &res)` leaves a field as it is that the body does not have.
  unfoldable pub unmarshal_into : Reply Job → ReadRes Job → ReadRes Job
  unmarshal_into reply res = record {
    ret = over reply.new_ret res.ret;
    msg = over reply.new_msg res.msg;
    job = over_job reply.new_job res.job;
  }

  abbrev pub or_again : Option Job → ReadOutcome Job → ReadOutcome Job
  or_again none again = again
  or_again (some j) again = returned (some j) false

  -- what follows a decoded body; `again` is the next round
  unfoldable pub on_res : Bytes → ReadRes Job → ReadOutcome Job → ReadOutcome Job
  on_res not_found res again =
      if text_eq res.msg not_found
      then again
      else if is_minus_one res.ret
      then returned none false
      else or_again res.job again

  unfoldable pub after_invoke :
      Bytes → ReadRes Job → Option (Reply Job) → (ReadRes Job → ReadOutcome Job) → ReadOutcome Job
  unfolding on_res unmarshal_into
  after_invoke not_found res none again = returned none true
  after_invoke not_found res (some reply) again =
      on_res not_found (unmarshal_into reply res) (again (unmarshal_into reply res))

  -- the loop of `Read`; `res` outlives its rounds
  unfoldable pub read_loop :
      Bytes → (Bytes → Option (Reply Job)) → List HttpResult → ReadRes Job → ReadOutcome Job
  unfolding after_invoke http_invoke
  read_loop not_found parse [] res = waits
  read_loop not_found parse (result ∷ results) res =
      after_invoke not_found res (http_invoke parse result) (read_loop not_found parse results)

  unfoldable pub read : Bytes → (Bytes → Option (Reply Job)) → List HttpResult → ReadOutcome Job
  unfolding read_loop
  read not_found parse results = read_loop not_found parse results zero_res
