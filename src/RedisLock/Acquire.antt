-- ===== src/RedisLock/Acquire.antt =====
-- When `TryAcquire` lets its caller go on, and what it has done to the key.
use sutil.RedisLock.{
  answered, Command, set_nx, incr_by, decr_by, Replies, done, second, contend, try_acquire, nanos,
  is_before, delta_of,
}
use sutil.Prelude.{
  ℕ, ◌+◌, ◌*◌, ◌/◌, ◌%◌, ◌^◌, ◌≤◌, ◌<◌, ◌≡◌, ◌≢◌, ◌↔◌, ◌⊎◌, true, false, List, [], ◌∷◌, arith,
}
use sutil.Prelude.Text.{Bytes, text_eq_iff}

-- what the commands add to the number under the key, and what they take away
abbrev pub added : List Command → ℕ
added [] = 0
added (incr_by d ∷ cs) = d + added cs
added (_ ∷ cs) = added cs

abbrev pub taken : List Command → ℕ
taken [] = 0
taken (decr_by d ∷ cs) = d + taken cs
taken (_ ∷ cs) = taken cs

-- the key was set before, its text is not that of a confirmed record and reads as a number that is
-- not above the clock's second (as an empty text does), and the increment answered as if nothing had
-- changed since
abbrev pub TakesOver : (Bytes → ℕ) → ℕ → ℕ → Replies → Type 0
TakesOver atoi now timeout r =
    (r.nx ≡ answered false)
    × (r.got ≢ done)
    × (is_before (second now) (atoi r.got) ≡ false)
    × (r.incremented ≡ (second now + timeout / nanos) % 2 ^ 64)

result_and_delta :
    (now result timeout : ℕ)
    → result < 2 ^ 64
    → (result + delta_of now result timeout) % 2 ^ 64 ≡ (now + timeout / nanos) % 2 ^ 64
unfolding delta_of
result_and_delta now result timeout small = omega (arith, small)

-- `TryAcquire` lets the caller go on exactly if its `SetNX` set the key, or if it takes the key over;
-- and where it refuses, it has taken back whatever it added.
pub try_acquire_iff :
    (atoi : Bytes → ℕ) (start now timeout : ℕ) (r : Replies)
    → atoi r.got < 2 ^ 64
    → (((try_acquire atoi start now timeout r).can_handle ≡ true)
        ↔ ((r.nx ≡ answered true) ⊎ TakesOver atoi now timeout r))
      × ((try_acquire atoi start now timeout r).can_handle ≡ false
          → added (try_acquire atoi start now timeout r).commands
            ≡ taken (try_acquire atoi start now timeout r).commands)
unfolding try_acquire contend
try_acquire_iff atoi start now timeout r small =
    ((iff_to, iff_from), λ h. ground (arith, text_eq_iff r.got done))
  where
    iff_to :
        (try_acquire atoi start now timeout r).can_handle ≡ true
        → (r.nx ≡ answered true) ⊎ TakesOver atoi now timeout r
    iff_to h =
        ground
          (arith, text_eq_iff r.got done, result_and_delta (second now) (atoi r.got) timeout small)

    iff_from :
        (r.nx ≡ answered true) ⊎ TakesOver atoi now timeout r
        → (try_acquire atoi start now timeout r).can_handle ≡ true
    iff_from h =
        ground
          (arith, text_eq_iff r.got done, result_and_delta (second now) (atoi r.got) timeout small)

-- With a timeout of whole minutes, such as the two minutes of the function's own comment, a second
-- caller is let go on however little of that time has passed: its clock need only show a second of
-- the minute that is not before the second at which the first caller set the key. This is where the
-- number that the first caller set is read back, is not confirmed, and was not changed before the
-- second caller's increment.
pub try_acquire_shared :
    (atoi : Bytes → ℕ) (start second_reading start' now' minutes v : ℕ) (r r' : Replies)
    → r.nx ≡ answered true
    → (try_acquire atoi start second_reading (60 * minutes * nanos) r).commands ≡ set_nx v ∷ []
    → r'.nx ≡ answered false
    → r'.got ≢ done
    → atoi r'.got ≡ v
    → r'.incremented ≡ (v + delta_of (second now') v (60 * minutes * nanos)) % 2 ^ 64
    → second start ≤ second now'
    → ((try_acquire atoi start second_reading (60 * minutes * nanos) r).can_handle ≡ true)
      × ((try_acquire atoi start' now' (60 * minutes * nanos) r').can_handle ≡ true)
unfolding try_acquire contend second is_before
try_acquire_shared atoi start second_reading start' now' minutes v r r' first set lost other kept
      won later =
    let deadline : v ≡ (start + 60 * minutes * nanos) / nanos % 60 = ground (arith, first, set) in
    let same : v ≡ start / nanos % 60 = omega (arith, deadline) in
    (
      ground (arith, first),
      ground (arith, lost, kept, won, same, later, other, text_eq_iff r'.got done),
    )
