-- ===== src/Slowid.antt =====
-- slowid/slowid.go: the generator of ids from a millisecond clock, a worker id and a one-bit
-- sequence. The clock enters as the list of the answers that `time.Now().UnixNano()` gives in turn,
-- none before 1970; the lock makes a call of `Next` one step.
pub mod Order
pub mod Fields
mod Tests
use Prim.Native.Nat.{bit_and, bit_or}
use sutil.Prelude.{
  ℕ, ◌+◌, ◌-◌, ◌*◌, ◌/◌, ◌%◌, ◌^◌, Option, none, some, List, [], ◌∷◌, ltb, leb, ◌==◌, if◌then◌else◌,
}

-- WorkerIdBits + SequenceBits and `-1 ^ (-1 << SequenceBits)`
abbrev pub max_worker_id : ℕ
max_worker_id = 2 ^ 10 - 1

abbrev pub max_sequence : ℕ
max_sequence = 2 ^ 1 - 1

-- `time.Date(2014, 11, 1, …, time.UTC).UnixNano() / 1000000`
abbrev pub since : ℕ
since = 1414800000000

pub record Slowid : Type 0 where
  pub last_timestamp : ℕ
  pub worker_id : ℕ
  pub sequence : ℕ

-- `uint64()`; the shifts are on uint64
unfoldable pub pack : Slowid → ℕ
pack sf =
    bit_or (bit_or (sf.last_timestamp * 2 ^ 11 % 2 ^ 64) (sf.worker_id * 2 ^ 1 % 2 ^ 64))
      sf.sequence

-- `uint64(UnixNano()/1000000 - Since)`: an instant before `Since` wraps around
unfoldable pub timestamp : ℕ → ℕ
timestamp unix_nano = (unix_nano / 1000000 + 2 ^ 64 - since) % 2 ^ 64

-- the loop of `tilNextMillis`: it reads the clock until a millisecond above `ts` shows; `none` stands
-- for a loop that is still running when the answers end
unfoldable pub til_greater : ℕ → List ℕ → Option ℕ
unfolding timestamp
til_greater ts [] = none
til_greater ts (now ∷ clock) =
    let again = til_greater ts clock in
    if leb (timestamp now) ts then again else some (timestamp now)

-- the first answer gives the length of the sleep, and is not used again
unfoldable pub til_next_millis : ℕ → List ℕ → Option ℕ
unfolding til_greater
til_next_millis ts [] = none
til_next_millis ts (un ∷ clock) = til_greater ts clock

pub data Outcome : Type 0 where
  issued : ℕ → Outcome
  precedes : Outcome
  waiting : Outcome

-- the part of `Next` behind the choice of the sequence
unfoldable pub commit : Slowid → ℕ → Slowid × Outcome
commit sf ts =
    if ltb ts sf.last_timestamp
    then (sf, precedes)
    else (let sf' = record sf { last_timestamp = ts } in (sf', issued (pack sf')))

on_wait : Slowid → Option ℕ → Slowid × Outcome
unfolding commit
on_wait sf none = (sf, waiting)
on_wait sf (some ts) = commit sf ts

-- `sf.sequence` is a uint32
unfoldable pub next : Slowid → List ℕ → Slowid × Outcome
unfolding on_wait commit
next sf [] = (sf, waiting)
next sf (now ∷ clock) =
    let ts = timestamp now in
    if ts == sf.last_timestamp
    then (let sf' = record sf { sequence = bit_and ((sf.sequence + 1) % 2 ^ 32) max_sequence } in
        if sf'.sequence == 0 then on_wait sf' (til_next_millis ts clock) else commit sf' ts)
    else commit (record sf { sequence = 0 }) ts

-- `NewSlowid` on a worker id that is not negative (a negative one is refused as well)
unfoldable pub new_slowid : ℕ → Option Slowid
new_slowid worker_id =
    if ltb max_worker_id worker_id
    then none
    else some (record { last_timestamp = 0; worker_id = worker_id; sequence = 0 })
