-- ===== src/MqDelay/Reading.antt =====
-- mq/delay.go: which answers of the delay queue a `Read` returns, and which it drops.
use sutil.Prelude.Text.{Bytes, text_eq_iff}
use sutil.Mq.{ℤ, negsuc}
use sutil.MqDelay.{
  HttpResult, http_invoke, Reply, absent, null, object, over, unmarshal_into, on_res, after_invoke,
  read_loop, read, returned, is_minus_one, ack, failed, acked,
}
use sutil.Prelude.{false, ◌≡◌, refl, ◌≢◌, ◌⊎◌, Option, none, some, List, ◌∷◌, arith}

module _ {Job : Type 0} (not_found : Bytes) (parse : Bytes → Option (Reply Job)) where
  -- an answer that says in full that there is no job yet: the text for "nothing found", or another text
  -- and no refusal, and no job either way
  unfoldable pub IsIdle : HttpResult → Type 0
  IsIdle result =
      (reply : Reply Job) × (http_invoke parse result ≡ some reply)
      × ((reply.new_job ≡ absent) ⊎ (reply.new_job ≡ null))
      × ((reply.new_msg ≡ some not_found)
          ⊎ ((m : Bytes) × (r : ℤ) × (reply.new_msg ≡ some m)
              × (m ≢ not_found)
              × (reply.new_ret ≡ some r)
              × (is_minus_one r ≡ false)))

  -- an answer with a job that leaves no field out
  unfoldable pub Carries : HttpResult → Job → Type 0
  Carries result j =
      (reply : Reply Job) × (decode : Option Job → Job) × (m : Bytes) × (r : ℤ) × (http_invoke parse
          result
        ≡ some reply)
      × (reply.new_job ≡ object decode)
      × (decode none ≡ j)
      × (reply.new_msg ≡ some m)
      × (m ≢ not_found)
      × (reply.new_ret ≡ some r)
      × (is_minus_one r ≡ false)

  -- an answer without a text, whatever job it carries
  unfoldable pub IsSilent : HttpResult → Type 0
  IsSilent result =
      (reply : Reply Job) × (http_invoke parse result ≡ some reply) × (reply.new_msg ≡ none)

  -- The first answer refuses with the return value -1: `Ack` fails, while `Read` returns neither a job
  -- nor an error.
  pub read-refused :
      (parse_ret : Bytes → Option ℤ) (result : HttpResult) (rest : List HttpResult)
      (reply : Reply Job) (m : Bytes)
      → http_invoke parse result ≡ some reply
      → http_invoke parse_ret result ≡ some (negsuc 0)
      → reply.new_ret ≡ some (negsuc 0)
      → reply.new_msg ≡ some m
      → m ≢ not_found
      → (read not_found parse (result ∷ rest) ≡ returned none false)
        × (ack parse_ret result ≡ failed)
  unfolding read read_loop ack on_res unmarshal_into
  read-refused parse_ret result rest reply m invoked refused er em n = (
    rw (invoked, after_invoke, unmarshal_into, em, er, over)
        (ground (arith, n, text_eq_iff m not_found)),
    rw (refused, acked) refl,
  )
