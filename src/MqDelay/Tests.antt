-- ===== src/MqDelay/Tests.antt =====
-- The delay queue's client at concrete answers. The empty body says that nothing is found; of one byte
-- it is a job, without a text; of two a job with the second as its text; of three a refusal.
use sutil.Prelude.Text.{Bytes, codes, split, last_index, Lacks, text_eq}
use sutil.Prelude.Maps.{Dict, lookup, store}
use sutil.Mq.{pos, negsuc}
use sutil.MqConfig.{build_key, get_config}
use sutil.MqDelay.{
  HttpResult, http_response, Reply, absent, null, object, read, returned, new_default_delay_client,
  panics,
}
use sutil.Prelude.{ℕ, false, ◌≡◌, refl, Option, none, some, [], ◌∷◌, arith}

abbrev nothing : Bytes
nothing = codes "not found"

abbrev parse : Bytes → Option (Reply ℕ)
parse [] = some (record { new_ret = some (negsuc 0); new_msg = some nothing; new_job = absent })
parse (id ∷ []) =
    some (record { new_ret = some (pos 0); new_msg = none; new_job = object (λ old. id) })
parse (id ∷ m ∷ []) =
    some (record { new_ret = some (pos 0); new_msg = some (m ∷ []); new_job = object (λ old. id) })
parse (a ∷ b ∷ c ∷ []) =
    some (record { new_ret = some (negsuc 0); new_msg = some (codes "busy"); new_job = null })
parse _ = none

abbrev not_found_200 : HttpResult
not_found_200 = http_response 200 []

abbrev brokers_key : Bytes
brokers_key = codes "base.jobs.default.delay.brokers"

abbrev commas : Dict Bytes
commas = store brokers_key (codes ",") []

abbrev center : Bytes → Option Bytes
center k = lookup k commas

jobs_Lacks : Lacks b'.' (codes "jobs")
jobs_Lacks = ground arith

panics_on_commas : new_default_delay_client center none (codes "base.jobs") ≡ panics
unfolding new_default_delay_client lookup last_index split get_config store text_eq build_key
panics_on_commas = refl

-- a refusal: neither a job nor an error
refused_read : read nothing parse (http_response 200 (1 ∷ 1 ∷ 1 ∷ []) ∷ []) ≡ returned none false
unfolding read text_eq
refused_read = refl
