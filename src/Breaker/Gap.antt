-- ===== src/Breaker/Gap.antt =====
-- How long a breaker rejects.
use sutil.Breaker.{
  Breaker, Tick, granularity_tick, check_tick, tick, check, is_over, add_count, or_default,
  default_breaker_gap,
}
use sutil.Prelude.{ℕ, ◌+◌, ◌≤◌, ◌≡◌, true, List, [], ◌∷◌, arith, All}

-- what happens to a breaker: an error is counted, or a ticker fires
pub data Moment : Type 0 where
  error_seen : Moment
  ticked : Tick → Moment

unfoldable pub moment : Moment → Breaker → Breaker
unfolding tick add_count
moment error_seen b = add_count b
moment (ticked t) b = tick t b

unfoldable pub run : List Moment → Breaker → Breaker
unfolding moment
run [] b = b
run (m ∷ ms) b = run ms (moment m b)

-- a check reads a clock no further than `gap` from `start`, and a gap that is no smaller
abbrev pub Within : ℕ → ℕ → Moment → Type 0
Within start gap error_seen = Unit
Within start gap (ticked granularity_tick) = Unit
Within start gap (ticked (check_tick t g now)) =
    (start ≤ now) × (now ≤ start + gap) × (gap ≤ or_default g default_breaker_gap)

stays :
    (start gap : ℕ) (m : Moment) (b : Breaker)
    → Within start gap m
    → b.rejected ≡ true
    → start ≤ b.rejected_start
    → ((moment m b).rejected ≡ true) × (start ≤ (moment m b).rejected_start)
unfolding moment tick check is_over add_count
stays start gap error_seen b w r s = (r, s)
stays start gap (ticked granularity_tick) b w r s = (r, s)
stays start gap (ticked (check_tick t g now)) b (a, z, e) r s = ground arith

-- A breaker that rejects goes on rejecting as long as its checks read a clock within the gap from the
-- time when it began, whatever errors are counted and however often the counter is reset.
pub run_rejects :
    (start gap : ℕ) (ms : List Moment) (b : Breaker)
    → All (Within start gap) ms
    → b.rejected ≡ true
    → start ≤ b.rejected_start
    → (run ms b).rejected ≡ true
unfolding run
run_rejects start gap [] b w r s = r
run_rejects start gap (m ∷ ms) b (w, ws) r s =
    let (r2, s2) = stays start gap m b w r s in run_rejects start gap ms (moment m b) ws r2 s2
