-- ===== src/RedisLock/Tests.antt =====
-- The lock at concrete answers.
use sutil.RedisLock.Acquire.{try_acquire_shared}
use sutil.RedisLock.{
  answered, returned, lock_with_timeout, Replies, try_acquire, doing, done, set_nx, get, incr_by,
  nanos, second, delta_of,
}
use sutil.Prelude.{ℕ, ◌+◌, ◌-◌, ◌*◌, ◌≡◌, ◌≢◌, arith, refl, true, false, [], ◌∷◌}
use sutil.Prelude.Text.{Bytes, codes, text_eq}

-- the key is set by the first try, and the second then fails against it
gained_and_lost :
    lock_with_timeout (answered true ∷ answered false ∷ []) 20_000_000 ≡ returned (answered false)
unfolding lock_with_timeout
gained_and_lost = refl

-- decimal digits
abbrev atoi_from : ℕ → Bytes → ℕ
atoi_from n [] = n
atoi_from n (c ∷ s) = atoi_from (n * 10 + (c - b'0')) s

abbrev atoi : Bytes → ℕ
atoi = atoi_from 0

-- the record says second 30; 30 + 130 was the answer to the increment by 10 + 120
abbrev second_caller : Replies
second_caller = record { nx = answered false; got = codes "30"; incremented = 160 }

ten_seconds_later :
    try_acquire atoi (40 * nanos) (40 * nanos) (120 * nanos) second_caller ≡ record {
      can_handle = true;
      state = doing;
      failed = false;
      commands = set_nx 40 ∷ get ∷ incr_by 130 ∷ [];
    }
unfolding try_acquire text_eq
ten_seconds_later = refl

-- the first caller, ten seconds before
abbrev first_caller : Replies
first_caller = record { nx = answered true; got = []; incremented = 0 }

first_sets :
    (try_acquire atoi (30 * nanos) (30 * nanos) (60 * 2 * nanos) first_caller).commands
    ≡ set_nx 30 ∷ []
unfolding try_acquire second
first_sets = refl

reads_thirty : second_caller.got ≢ done
reads_thirty e = ground (arith, e)

try_acquire_shared_example :
    ((try_acquire atoi (30 * nanos) (30 * nanos) (60 * 2 * nanos) first_caller).can_handle ≡ true)
    × ((try_acquire atoi (40 * nanos) (40 * nanos) (60 * 2 * nanos) second_caller).can_handle
        ≡ true)
unfolding second delta_of
try_acquire_shared_example =
    try_acquire_shared atoi (30 * nanos) (30 * nanos) (40 * nanos) (40 * nanos) 2 30 first_caller
      second_caller refl first_sets refl reads_thirty refl refl (omega arith)
