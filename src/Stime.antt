-- ===== src/Stime.antt =====
-- stime/backoff.go: the back-off that doubles its waiting time. An int64 is its 64 bits; the blocking
-- wait is over when its time has passed, or when a reset ends it.
use sutil.Prelude.{ℕ, ◌+◌, ◌*◌, ◌%◌, ◌^◌, Bool, ◌||◌, leb, ◌==◌, if◌then◌else◌}
pub mod Doubling
mod Tests

pub record BackOffCtrl : Type 0 where
  pub ceil : ℕ
  pub step : ℕ
  pub backtime : ℕ

unfoldable pub new_back_off_ctrl : ℕ → ℕ → BackOffCtrl
new_back_off_ctrl step ceil = record { ceil = ceil; step = step; backtime = 0 }

-- `x <= 0` and `x >= y` on int64
unfoldable pub not_positive : ℕ → Bool
not_positive x = x == 0 || leb (2 ^ 63) x

unfoldable pub at_least : ℕ → ℕ → Bool
at_least x y = leb ((y + 2 ^ 63) % 2 ^ 64) ((x + 2 ^ 63) % 2 ^ 64)

unfoldable pub doubled : BackOffCtrl → ℕ
unfolding not_positive
doubled m = if not_positive m.backtime then m.step else m.backtime * 2 % 2 ^ 64

-- `BackOff`, where the time passes and no reset comes
unfoldable pub back_off : BackOffCtrl → BackOffCtrl
unfolding doubled at_least
back_off m =
    let next = doubled m in record m { backtime = if at_least next m.ceil then m.ceil else next }

unfoldable pub reset : BackOffCtrl → BackOffCtrl
reset m = record m { backtime = 0 }

unfoldable pub set_ctrl : ℕ → ℕ → BackOffCtrl → BackOffCtrl
unfolding reset
set_ctrl step ceil m = reset (record m { step = step; ceil = ceil })
