-- ===== src/RedisLock/Timeout.antt =====
-- What `LockWithTimeout` can return.
use sutil.RedisLock.{
  SetNx, answered, nx_error, returned, retry_time_gap, lock_loop, lock_with_timeout,
}
use sutil.Prelude.{ℕ, ◌-◌, ◌<◌, ◌≢◌, ◌⊎◌, inl, true, false, List, [], ◌∷◌, arith}

lock_loop-ne-locked :
    (answers : List SetNx) (timeout : ℕ) (last : SetNx)
    → last ≢ answered true ⊎ (0 < timeout)
    → lock_loop answers timeout last ≢ returned (answered true)
unfolding lock_loop
lock_loop-ne-locked [] timeout last h = λ e. ground arith
lock_loop-ne-locked (answered true ∷ answers) timeout last h =
    ground (arith, lock_loop-ne-locked answers timeout (answered true))
lock_loop-ne-locked (answered false ∷ answers) timeout last h =
    ground (arith, lock_loop-ne-locked answers (timeout - retry_time_gap) (answered false))
lock_loop-ne-locked (nx_error ∷ answers) timeout last h =
    ground (arith, lock_loop-ne-locked answers (timeout - retry_time_gap) nx_error)

-- `LockWithTimeout` never reports that it has the lock: whatever redis answers, and whatever the
-- timeout, its result is not (true, nil). Only a failed try uses up time, so the loop goes on behind
-- a try that has set the key, until a later try fails.
pub lock_with_timeout-ne-locked :
    (answers : List SetNx) (timeout : ℕ)
    → lock_with_timeout answers timeout ≢ returned (answered true)
unfolding lock_with_timeout
lock_with_timeout-ne-locked answers timeout =
    lock_loop-ne-locked answers timeout (answered false) (inl (λ e. cc))
