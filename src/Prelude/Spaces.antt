-- ===== src/Prelude/Spaces.antt =====
-- The white space round a text, as Go's `strings` has it for ASCII.
use sutil.Prelude.Text.{Bytes}
use sutil.Prelude.Booleans.{leb, ◌==◌, if◌then◌else◌}
use Prim.Native.Nat.{ℕ}
use mathlib.Core.Bool.{Bool, ◌&&◌, ◌||◌}
use mathlib.Core.List.{[], ◌∷◌}

-- `strings.TrimSpace`
abbrev pub is_space : ℕ → Bool
is_space c = c == 32 || (leb 9 c && leb c 13)

unfoldable pub trim_left : Bytes → Bytes
trim_left [] = []
trim_left (c ∷ s) = if is_space c then trim_left s else c ∷ s

abbrev pub onto_trimmed : ℕ → Bytes → Bytes
onto_trimmed c [] = if is_space c then [] else c ∷ []
onto_trimmed c (d ∷ s) = c ∷ d ∷ s

unfoldable pub trim_right : Bytes → Bytes
trim_right [] = []
trim_right (c ∷ s) = onto_trimmed c (trim_right s)

unfoldable pub trim_space : Bytes → Bytes
unfolding trim_left trim_right
trim_space s = trim_right (trim_left s)
