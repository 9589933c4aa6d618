-- ===== src/Breaker.antt =====
-- dbrouter/breaker.go: the breaker of a table, as the steps of its counter and of the two tickers of
-- `Run`. The clock is in seconds; what the configuration center has is an input of each check.
pub mod Gap
mod Tests
use sutil.Prelude.Text.{Bytes, codes, contains}
use sutil.Prelude.Maps.{Dict, lookup, store}
use sutil.Prelude.{
  ℕ, ◌+◌, ◌-◌, ◌%◌, ◌^◌, Bool, true, false, not, ◌&&◌, ◌||◌, Option, none, some, ◌∷◌, ◌++◌, ltb,
  if◌then◌else◌,
}

-- the int32 counter as its bits; `rejected` is 1 or 0 in the source
pub record Breaker : Type 0 where
  pub rejected : Bool
  pub rejected_start : ℕ
  pub count : ℕ

abbrev pub new_breaker : Breaker
new_breaker = record { rejected = false; rejected_start = 0; count = 0 }

abbrev pub default_threshold : ℕ
default_threshold = 10

abbrev pub default_breaker_gap : ℕ
default_breaker_gap = 10

unfoldable pub or_default : Option ℕ → ℕ → ℕ
or_default (some n) d = n
or_default none d = d

pub data Tick : Type 0 where
  granularity_tick : Tick
  check_tick : Option ℕ → Option ℕ → ℕ → Tick

unfoldable pub add_count : Breaker → Breaker
add_count b = record b { count = (b.count + 1) % 2 ^ 32 }

-- a counter that has passed 2^31 is negative as an int32, and a threshold is taken below that
unfoldable pub is_over : ℕ → ℕ → Bool
is_over count threshold = ltb threshold count && ltb count (2 ^ 31)

unfoldable pub check : ℕ → ℕ → ℕ → Breaker → Breaker
unfolding is_over
check threshold gap now b =
    if is_over b.count threshold
    then record b { rejected = true; rejected_start = now }
    else if ltb gap (now - b.rejected_start)
    then record b { rejected = false }
    else b

unfoldable pub tick : Tick → Breaker → Breaker
unfolding check or_default
tick granularity_tick b = record b { count = 0 }
tick (check_tick threshold gap now) b =
    check (or_default threshold default_threshold) (or_default gap default_breaker_gap) now b

-- `err.Error()` that counts
unfoldable pub counts : Bytes → Bool
counts e = contains e (codes "timeout") || contains e (codes "invalid connection")

unfoldable pub key_of : Bytes → Bytes → Bytes
key_of cluster table = cluster ++ (b'_' ∷ table)

unfoldable pub breaker_or_new : Option Breaker → Breaker
breaker_or_new (some b) = b
breaker_or_new none = new_breaker

-- `statBreaker`, with the text of the error or none
unfoldable pub stat_breaker : Bytes → Bytes → Option Bytes → Dict Breaker → Dict Breaker
unfolding counts key_of breaker_or_new add_count
stat_breaker cluster table none bm = bm
stat_breaker cluster table (some e) bm =
    if counts e
    then store (key_of cluster table)
        (add_count (breaker_or_new (lookup (key_of cluster table) bm))) bm
    else bm

unfoldable pub lets_pass : Option Breaker → Bool
lets_pass (some b) = not b.rejected
lets_pass none = true

unfoldable pub entry : Bytes → Bytes → Dict Breaker → Bool
unfolding lets_pass key_of
entry cluster table bm = lets_pass (lookup (key_of cluster table) bm)
