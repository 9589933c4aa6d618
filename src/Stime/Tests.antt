-- ===== src/Stime/Tests.antt =====
-- A back-off at concrete times.
use sutil.Stime.{BackOffCtrl, reset, back_off}
use sutil.Stime.Doubling.{rounds}
use sutil.Prelude.{◌≡◌, refl}

abbrev one_to_ten : BackOffCtrl
one_to_ten = record { ceil = 10; step = 1; backtime = 0 }

fifth_wait : (rounds 5 (reset one_to_ten)).backtime ≡ 10
unfolding rounds back_off reset
fifth_wait = refl
