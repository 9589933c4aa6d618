-- ===== src/Ssync/Exclusion.antt =====
-- At most one holder.
use sutil.Ssync.{
  Mutex, Outcome, acquired, blocked, refused, released, panicked, lock, unlock, trylock,
}
use sutil.Prelude.{◌≡◌, Bool, true, false, List, [], ◌∷◌, refl}

pub data Call : Type 0 where
  lock_call : Call
  unlock_call : Call
  trylock_call : Call

unfoldable pub call : Call → Mutex → Mutex × Outcome
unfolding lock unlock trylock
call lock_call m = lock m
call unlock_call m = unlock m
call trylock_call m = trylock m

-- the outcomes of a sequence of calls, in the order in which the channel serves them
unfoldable pub outcomes : List Call → Mutex → List Outcome
unfolding call
outcomes [] m = []
outcomes (c ∷ cs) m = let (m2, o) = call c m in o ∷ outcomes cs m2

-- acquisitions and releases take turns: a release is next where the mutex is held
abbrev pub Alternate : Bool → List Outcome → Type 0
Alternate full [] = Unit
Alternate full (acquired ∷ os) = (full ≡ false) × Alternate true os
Alternate full (released ∷ os) = (full ≡ true) × Alternate false os
Alternate full (panicked ∷ os) = (full ≡ false) × Alternate full os
Alternate full (blocked ∷ os) = (full ≡ true) × Alternate full os
Alternate full (refused ∷ os) = (full ≡ true) × Alternate full os

-- In every sequence of calls, no acquisition follows another without a release between them; a call
-- blocks or is refused only while the mutex is held, and `Unlock` panics only while it is not.
pub outcomes-Alternate :
    (cs : List Call) (full : Bool) → Alternate full (outcomes cs (record { held = full }))
unfolding outcomes call lock unlock trylock
outcomes-Alternate [] full = tt
outcomes-Alternate (lock_call ∷ cs) true = (refl, outcomes-Alternate cs true)
outcomes-Alternate (lock_call ∷ cs) false = (refl, outcomes-Alternate cs true)
outcomes-Alternate (unlock_call ∷ cs) true = (refl, outcomes-Alternate cs false)
outcomes-Alternate (unlock_call ∷ cs) false = (refl, outcomes-Alternate cs false)
outcomes-Alternate (trylock_call ∷ cs) true = (refl, outcomes-Alternate cs true)
outcomes-Alternate (trylock_call ∷ cs) false = (refl, outcomes-Alternate cs true)
