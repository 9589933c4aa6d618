-- ===== src/Breaker/Tests.antt =====
-- A breaker at concrete moments.
use sutil.Breaker.{Breaker, check_tick, granularity_tick, or_default}
use sutil.Breaker.Gap.{Moment, error_seen, ticked, run, run_rejects}
use sutil.Prelude.{◌≡◌, refl, true, false, none, List, [], ◌∷◌, arith}

abbrev rejecting : Breaker
rejecting = record { rejected = true; rejected_start = 100; count = 11 }

abbrev moments : List Moment
moments = error_seen ∷ ticked granularity_tick ∷ ticked (check_tick none none 109) ∷ []

run_rejects_example : (run moments rejecting).rejected ≡ true
unfolding or_default
run_rejects_example =
    run_rejects 100 10 moments rejecting (tt, (tt, ((omega arith, omega arith, omega arith), tt)))
      refl (omega arith)

abbrev later : List Moment
later = ticked granularity_tick ∷ ticked (check_tick none none 111) ∷ []

passes_again : (run later rejecting).rejected ≡ false
unfolding run
passes_again = refl
