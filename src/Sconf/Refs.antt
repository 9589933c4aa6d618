-- ===== src/Sconf/Refs.antt =====
-- sconf/TierConf.go: the matches of the pattern `\$\{.*?\}` in a value (`FindAllStringIndex`, with the
-- slices that `parseVar` cuts at the indices), and `strings.Trim` with a set of ASCII bytes.
use mathlib.Core.List.{reverse}
use mathlib.Core.Option
use sutil.Prelude.{
  ℕ, zero, suc, ◌-◌, Bool, false, ◌&&◌, ◌||◌, Option, none, some, List, [], ◌∷◌, ◌++◌, ◌==◌,
  if◌then◌else◌, length,
}
use sutil.Prelude.Text.{Bytes}

-- a match, with the text between the match before and it
pub record Found : Type 0 where
  pub lead : Bytes
  pub ref : Bytes

-- behind "${": the text up to the first `}`, the brace included, and what follows; `.` matches no
-- newline
unfoldable pub close_ref : Bytes → Option (Bytes × Bytes)
close_ref [] = none
close_ref (c ∷ s) =
    if c == b'}'
    then some (c ∷ [], s)
    else if c == b'\n'
    then none
    else Option.map (λ r. (c ∷ r.0, r.1)) (close_ref s)

-- the match that begins at the head of the text
unfoldable pub open_ref : Bytes → Option (Bytes × Bytes)
unfolding close_ref
open_ref (c ∷ d ∷ s) =
    if c == b'$' && d == b'{' then Option.map (λ r. (c ∷ d ∷ r.0, r.1)) (close_ref s) else none
open_ref _ = none

-- the scan from left to right; `skip` bytes still belong to the last match
unfoldable pub scan : ℕ → Bytes → Bytes → List Found × Bytes
unfolding open_ref
scan skip lead [] = ([], lead)
scan (suc skip) lead (c ∷ s) = scan skip lead s
scan zero lead (c ∷ s) = elim (open_ref (c ∷ s)) [
  | some (ref, rest) ↦
      let (fs, behind) = scan (length ref - 1) [] s in
      (record { lead = lead; ref = ref } ∷ fs, behind)
  | none ↦ scan zero (lead ++ c ∷ []) s
]

unfoldable pub find_all : Bytes → List Found × Bytes
unfolding scan
find_all value = scan zero [] value

unfoldable pub in_set : ℕ → Bytes → Bool
in_set c [] = false
in_set c (x ∷ xs) = c == x || in_set c xs

unfoldable pub trim_left : Bytes → Bytes → Bytes
unfolding in_set
trim_left cutset [] = []
trim_left cutset (c ∷ s) = if in_set c cutset then trim_left cutset s else c ∷ s

-- `strings.Trim(s, cutset)`
unfoldable pub trim : Bytes → Bytes → Bytes
unfolding trim_left
trim cutset s = reverse (trim_left cutset (reverse (trim_left cutset s)))
