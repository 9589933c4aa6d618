-- ===== src/Ssync.antt =====
-- ssync/ssync.go: the mutex that is a channel of one place. `held` says that the channel is full; a
-- mutex that was not used yet has no channel, which `Unlock` finds empty as well.
use sutil.Prelude.{Bool, true, false, if◌then◌else◌}
pub mod Exclusion
mod Tests

pub record Mutex : Type 0 where
  pub held : Bool

pub data Outcome : Type 0 where
  acquired : Outcome
  blocked : Outcome
  refused : Outcome
  released : Outcome
  panicked : Outcome

abbrev pub unlocked : Mutex
unlocked = record { held = false }

unfoldable pub lock : Mutex → Mutex × Outcome
lock m = if m.held then (m, blocked) else (record { held = true }, acquired)

unfoldable pub unlock : Mutex → Mutex × Outcome
unlock m = if m.held then (record { held = false }, released) else (m, panicked)

unfoldable pub trylock : Mutex → Mutex × Outcome
trylock m = if m.held then (m, refused) else (record { held = true }, acquired)
