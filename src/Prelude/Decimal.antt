-- ===== src/Prelude/Decimal.antt =====
-- Decimal numbers, as Go's `strconv` reads them.
use sutil.Prelude.Text.{Bytes}
use sutil.Prelude.Booleans.{ltb, leb, if◌then◌else◌}
use Prim.Native.Nat.{ℕ, ◌+◌, ◌-◌, ◌*◌, ◌^◌}
use mathlib.Core.Bool.{◌&&◌}
use mathlib.Core.Option.{Option, none, some}
use mathlib.Core.List.{[], ◌∷◌}

-- `strconv.ParseUint` at base 10; none stands for both of its errors
unfoldable pub parse_digits : Bytes → ℕ → Option ℕ
parse_digits [] n = some n
parse_digits (c ∷ s) n =
    if leb b'0' c && leb c b'9' then parse_digits s (10 * n + (c - b'0')) else none

abbrev pub in_bits : ℕ → Option ℕ → Option ℕ
in_bits bits none = none
in_bits bits (some n) = if ltb n (2 ^ bits) then some n else none

unfoldable pub parse_uint : Bytes → ℕ → Option ℕ
unfolding parse_digits
parse_uint [] bits = none
parse_uint (c ∷ s) bits = in_bits bits (parse_digits (c ∷ s) 0)
