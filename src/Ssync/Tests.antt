-- ===== src/Ssync/Tests.antt =====
-- A mutex under concrete calls.
use sutil.Ssync.Exclusion.{Call, lock_call, unlock_call, trylock_call}
use sutil.Prelude.{List, [], ◌∷◌}

abbrev calls : List Call
calls = trylock_call ∷ trylock_call ∷ unlock_call ∷ lock_call ∷ []
