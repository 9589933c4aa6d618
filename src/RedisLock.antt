-- ===== src/RedisLock.antt =====
-- cache/redisext/lock.go: the distributed lock. What redis answers enters as the list of the answers
-- to the calls in turn, and the wall clock as the list of its readings.
use sutil.Prelude.{
  ℕ, ◌-◌, ◌/◌, ◌^◌, ◌&&◌, Bool, true, false, List, [], ◌∷◌, ◌==◌, if◌then◌else◌, ◌+◌, ◌%◌, ◌++◌,
  ltb,
}
use sutil.Prelude.Text.{Bytes, codes, text_eq}
pub mod Timeout
pub mod Acquire
mod Tests

-- Go's (bool, error) of `SetNX`
pub data SetNx : Type 0 where
  answered : Bool → SetNx
  nx_error : SetNx

-- `Lock`: the pair (r, err) that it returns
unfoldable pub lock : SetNx → SetNx
lock (answered r) = answered r
lock nx_error = nx_error

-- `LockWithTimeout` returns (r, err), or is still in its loop when the answers end
pub data Attempt : Type 0 where
  returned : SetNx → Attempt
  trying : Attempt

-- retryTimeGap, in nanoseconds
abbrev pub retry_time_gap : ℕ
retry_time_gap = 20_000_000

-- the loop, with `timeout` in nanoseconds and the last (r, err); a `timeout` that a subtraction would
-- take below 0 ends the loop just as 0 does
unfoldable pub lock_loop : List SetNx → ℕ → SetNx → Attempt
lock_loop [] timeout last = if timeout == 0 then returned last else trying
lock_loop (a ∷ answers) timeout last =
    let kept = lock_loop answers timeout a in
    let retried = lock_loop answers (timeout - retry_time_gap) a in
    if timeout == 0
    then returned last
    else elim a [ answered true ↦ kept | answered false ↦ retried | nx_error ↦ retried ]

-- `LockWithTimeout`; the named results begin as (false, nil)
unfoldable pub lock_with_timeout : List SetNx → ℕ → Attempt
unfolding lock_loop
lock_with_timeout answers timeout = lock_loop answers timeout (answered false)

-- The commands of `TryAcquire` to redis on its key, in the order of the calls; what is added or taken
-- away is given by its 64 bits.
pub data Command : Type 0 where
  set_nx : ℕ → Command
  get : Command
  incr_by : ℕ → Command
  decr_by : ℕ → Command

pub record Acquired : Type 0 where
  pub can_handle : Bool
  pub state : Bytes
  pub failed : Bool
  pub commands : List Command

abbrev pub init_state : Bytes
init_state = codes "0"

abbrev pub doing : Bytes
doing = codes "1"

abbrev pub done : Bytes
done = codes "99"

-- the nanoseconds of a second
abbrev pub nanos : ℕ
nanos = 1_000_000_000

-- `time.Time.Second()`, at a time in nanoseconds: the second within the minute
unfoldable pub second : ℕ → ℕ
second time = time / nanos % 60

-- What redis answers to `Get` (the string, which is empty where there is an error) and to `IncrBy`
-- (the 64 bits of the number, 0 where there is an error).
pub record Replies : Type 0 where
  pub nx : SetNx
  pub got : Bytes
  pub incremented : ℕ

-- `now < result`, where the result of strconv.Atoi is an int, given by its 64 bits
unfoldable pub is_before : ℕ → ℕ → Bool
is_before now result = ltb result (2 ^ 63) && ltb now result

-- the 64 bits of `now - result + int(timeout.Seconds())`; Seconds is a float64, whose integer part is
-- the one here for a timeout of whole seconds and for each below 2^22 seconds
unfoldable pub delta_of : ℕ → ℕ → ℕ → ℕ
delta_of now result timeout = (now + (2 ^ 64 - result) + timeout / nanos) % 2 ^ 64

-- `atoi` gives the 64 bits of what strconv.Atoi returns, its error being ignored
module _ (atoi : Bytes → ℕ) where
  -- behind the lost `SetNX`: `now` is the second reading of the clock
  unfoldable pub contend : ℕ → ℕ → ℕ → Replies → Acquired
  unfolding second is_before delta_of
  contend value now timeout r =
      let result = atoi r.got in
      let delta = delta_of (second now) result timeout in
      let tried = set_nx value ∷ get ∷ [] in
      if text_eq r.got done
      then record { can_handle = false; state = done; failed = false; commands = tried }
      else if is_before (second now) result
      then record { can_handle = false; state = doing; failed = false; commands = tried }
      else if r.incremented == (result + delta) % 2 ^ 64
      then record {
        can_handle = true;
        state = doing;
        failed = false;
        commands = tried ++ incr_by delta ∷ [];
      }
      else record {
        can_handle = false;
        state = doing;
        failed = false;
        commands = tried ++ incr_by delta ∷ decr_by delta ∷ [];
      }

  -- `TryAcquire` with the clock at its two readings and the timeout, all in nanoseconds and none
  -- negative
  unfoldable pub try_acquire : ℕ → ℕ → ℕ → Replies → Acquired
  unfolding contend
  try_acquire start now timeout r =
      let value = second (start + timeout) in
      elim r.nx [
        | nx_error ↦ record {
          can_handle = false;
          state = codes "unknown";
          failed = true;
          commands = set_nx value ∷ [];
        }
        | answered true ↦ record {
          can_handle = true;
          state = init_state;
          failed = false;
          commands = set_nx value ∷ [];
        }
        | answered false ↦ contend value now timeout r
      ]
