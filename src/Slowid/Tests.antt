-- ===== src/Slowid/Tests.antt =====
-- The id generator at concrete clocks.
use sutil.Slowid.Order.{ids, Increasing, ids-Increasing}
use sutil.Slowid.Fields.{Fits, pack_fields}
use sutil.Slowid.{Slowid, pack, next, new_slowid, til_greater, til_next_millis}
use sutil.Prelude.{ℕ, ◌+◌, ◌*◌, ◌/◌, ◌%◌, ◌^◌, ◌<◌, ◌≡◌, refl, none, some, List, [], ◌∷◌, arith}

-- the clock at some milliseconds behind `Since`
abbrev at : ℕ → ℕ
at ms = (1414800000000 + ms) * 1000000

abbrev worker : Slowid
worker = record { last_timestamp = 0; worker_id = 7; sequence = 0 }

-- three calls in one millisecond: the third sleeps until the next one
abbrev burst : List (List ℕ)
burst = (at 5 ∷ []) ∷ (at 5 ∷ []) ∷ (at 5 ∷ at 5 ∷ at 5 ∷ at 6 ∷ []) ∷ []

abbrev behind_burst : Slowid
behind_burst = record { last_timestamp = 6; worker_id = 7; sequence = 0 }

burst-ids : ids worker burst ≡ some (behind_burst, 10254 ∷ 10255 ∷ 12302 ∷ [])
unfolding ids next pack til_greater til_next_millis
burst-ids = refl

worker_limit :
    (new_slowid 1023 ≡ some (record worker { worker_id = 1023 })) × (new_slowid 1024 ≡ none)
unfolding new_slowid
worker_limit = (refl, refl)

behind_Fits : Fits behind_burst
behind_Fits = omega arith

pack_fields_example :
    (pack behind_burst < 2 ^ 52)
    × (pack behind_burst / 2048 ≡ 6)
    × (pack behind_burst / 2 % 1024 ≡ 7)
    × (pack behind_burst % 2 ≡ 0)
pack_fields_example = pack_fields behind_burst behind_Fits

ids-Increasing_example : Increasing (pack worker) (10254 ∷ 10255 ∷ 12302 ∷ [])
ids-Increasing_example =
    ids-Increasing burst worker behind_burst (10254 ∷ 10255 ∷ 12302 ∷ []) (omega arith) burst-ids
      behind_Fits
