-- ===== src/Stext.antt =====
-- stext/loctext.go: the formats of LocationText. A text is read by bytes, which agrees with Go's
-- runes: only ASCII bytes are compared, and no byte of a longer rune is one. strconv.Atoi is a
-- parameter.
pub mod Streaming
pub mod Positions
pub mod Pieces
mod Tests
use sutil.Prelude.Text.{Bytes}
use sutil.Mq.{ℤ, pos, negsuc}
use sutil.Prelude.{
  ℕ, Option, none, some, List, [], ◌∷◌, zero, suc, ◌+◌, ◌-◌, ltb, ◌==◌, if◌then◌else◌, length,
  get_elem?, take, drop, ◌||◌, ◌++◌,
}

unfoldable pub or_minus_one : Option ℤ → ℤ
or_minus_one (some z) = z
or_minus_one none = negsuc 0

-- `doFmt`; the text without its last byte, where that is a dollar
unfoldable pub numbered : (Bytes → Option ℤ) → Bytes → Option ℕ → ℤ
unfolding or_minus_one
numbered atoi f (some n) =
    if n == b'$' then or_minus_one (atoi (take (length f - 1) f)) else negsuc 0
numbered atoi f none = negsuc 0

unfoldable pub do_fmt : (Bytes → Option ℤ) → Bytes → ℤ
unfolding numbered
do_fmt atoi f =
    if length f == 0
    then pos 0
    else if ltb (length f) 2
    then negsuc 0
    else numbered atoi f (get_elem? f (length f - 1))

pub record LocState : Type 0 where
  pub res : Bytes
  pub fb : Option ℕ
  pub cb : ℕ
  pub pi : ℕ

-- `format[a:b]`
abbrev pub slice : ℕ → ℕ → Bytes → Bytes
slice a b s = take (b - a) (drop a s)

-- the parameter, if there is one, and the number of the next unnumbered format
unfoldable pub given : Option Bytes → ℕ → ℕ → Bytes × ℕ
given (some p) used unused = (p, used)
given none used unused = ([], unused)

-- what stands for a format, and the number of the next unnumbered one
unfoldable pub replaced : List Bytes → Bytes → ℤ → ℕ → Bytes × ℕ
unfolding given
replaced params verbatim (negsuc n) next = (verbatim, next)
replaced params verbatim (pos zero) next = given (get_elem? params (next - 1)) (next + 1) next
replaced params verbatim (pos (suc n)) next = given (get_elem? params n) next next

module _ (atoi : Bytes → Option ℤ) (params : List Bytes) (format : Bytes) where
  unfoldable pub on_percent : ℕ → LocState → Option ℕ → LocState
  on_percent i st none = record st { fb = some i }
  on_percent i st (some f) =
      if suc f == i
      then record st { res = st.res ++ slice st.cb i format; fb = none; cb = i + 1 }
      else record st { fb = some i }

  unfoldable pub on_verb : ℕ → LocState → Option ℕ → LocState
  unfolding replaced do_fmt
  on_verb i st none = st
  on_verb i st (some f) =
      let (text, next) =
        replaced params (slice f (i + 1) format) (do_fmt atoi (slice (f + 1) i format)) st.pi in
      record { res = (st.res ++ slice st.cb f format) ++ text; fb = none; cb = i + 1; pi = next }

  -- one round of the loop
  unfoldable pub step : ℕ → ℕ → LocState → LocState
  unfolding on_percent on_verb
  step i c st =
      if c == b'%'
      then on_percent i st st.fb
      else if c == b'@' || c == b's'
      then on_verb i st st.fb
      else st

  unfoldable pub loop : Bytes → ℕ → LocState → LocState
  unfolding step
  loop [] i st = st
  loop (c ∷ s) i st = loop s (i + 1) (step i c st)

  unfoldable pub finish : LocState → Bytes
  finish st = if ltb st.cb (length format) then st.res ++ drop st.cb format else st.res

-- `LocationText`
unfoldable pub location_text : (Bytes → Option ℤ) → Bytes → List Bytes → Bytes
unfolding loop finish
location_text atoi format params =
    finish atoi params format
      (loop atoi params format format 0 (record { res = []; fb = none; cb = 0; pi = 1 }))
