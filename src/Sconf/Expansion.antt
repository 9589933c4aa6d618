-- ===== src/Sconf/Expansion.antt =====
-- What `ToString` returns, without the history: the history only ever turns a run into an error.
use sutil.Sconf.{Result, ok, err, in_history}
use sutil.Prelude.{◌≡◌, Bool, List, false}
use sutil.Prelude.Text.{Bytes, codes, contains}

abbrev is_cyclic : Bytes → Bool
is_cyclic e = contains e (codes "cyclic reference")

-- A result that is no cycle, and not out of fuel, is kept.
record Keeps (r r' : Result) : Type 0 where
  value : (v : Bytes) → r ≡ ok v → r' ≡ ok v
  fault : (e : Bytes) → r ≡ err e → is_cyclic e ≡ false → r' ≡ err e

-- the second history holds no name that the first does not
abbrev Fewer : List Bytes → List Bytes → Type 0
Fewer history history' = (x : Bytes) → in_history x history ≡ false → in_history x history' ≡ false
