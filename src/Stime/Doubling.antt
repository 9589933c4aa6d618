-- ===== src/Stime/Doubling.antt =====
-- The waiting times of a back-off.
use Prim.Native.Nat.{min}
use sutil.Stime.{BackOffCtrl, back_off, doubled, not_positive, at_least, reset}
use sutil.Prelude.{ℕ, zero, suc, ◌*◌, ◌^◌, ◌<◌, ◌≡◌, refl, arith}

unfoldable pub rounds : ℕ → BackOffCtrl → BackOffCtrl
rounds zero m = m
rounds (suc n) m = back_off (rounds n m)

rounds_keep :
    (n : ℕ) (m : BackOffCtrl) → ((rounds n m).ceil ≡ m.ceil) × ((rounds n m).step ≡ m.step)
unfolding rounds back_off
rounds_keep zero m = (refl, refl)
rounds_keep (suc n) m = rounds_keep n m

doubles : (s n : ℕ) → s * 2 ^ suc n ≡ s * 2 ^ n * 2
doubles s n = grind arith

scaled_positive : (s n : ℕ) → 0 < s → 0 < s * 2 ^ n
scaled_positive s zero h = grind arith
scaled_positive s (suc n) h = ground (arith, doubles s n, scaled_positive s n h)

first_wait :
    (m : BackOffCtrl)
    → 0 < m.ceil
    → m.ceil < 2 ^ 62
    → m.step < 2 ^ 63
    → m.backtime ≡ 0
    → (back_off m).backtime ≡ min m.step m.ceil
unfolding back_off doubled not_positive at_least
first_wait m c d s z = ground arith

next_wait :
    (m : BackOffCtrl)
    → 0 < m.backtime
    → m.backtime < 2 ^ 62
    → 0 < m.ceil
    → m.ceil < 2 ^ 62
    → (back_off m).backtime ≡ min (m.backtime * 2) m.ceil
unfolding back_off doubled not_positive at_least
next_wait m b d c e = ground arith

-- Behind `n + 1` waits from a reset on, the next wait takes `step` doubled `n` times, but no more than
-- `ceil`, where the two are above 0 and `ceil` is below 2^62, and `step` below 2^63.
pub backtime-rounds :
    (m : BackOffCtrl) (n : ℕ)
    → 0 < m.step
    → 0 < m.ceil
    → m.ceil < 2 ^ 62
    → m.step < 2 ^ 63
    → (rounds (suc n) (reset m)).backtime ≡ min (m.step * 2 ^ n) m.ceil
unfolding rounds reset
backtime-rounds m zero s c d t = grind (arith, first_wait (reset m) c d t refl)
backtime-rounds m (suc n) s c d t = ground (
  arith,
  next_wait (rounds (suc n) (reset m)),
  rounds_keep (suc n) (reset m),
  backtime-rounds m n s c d t,
  doubles m.step n,
  scaled_positive m.step n s,
)
