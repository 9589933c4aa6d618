-- ===== src/Framing.antt =====
-- snetutil/snetutil.go: the length-prefixed frames of `PackdataPad`, `Packdata`, `UnPackdata` and
-- `PackageSplit`, with the two functions of encoding/binary that they call. A slice is a value here:
-- each append makes a list of its own.
pub mod Uvarint
pub mod Step
pub mod RoundTrip
pub mod Chunks
mod Tests
use sutil.Framing.Uvarint.{Header, bad, short, head, uvarint, put_uvarint}
use sutil.Prelude.{
  ℕ, zero, suc, ◌+◌, ◌-◌, ◌%◌, ◌^◌, Bool, true, false, Option, none, some, List, [], ◌∷◌, ◌++◌, ltb,
  leb, ◌==◌, if◌then◌else◌, length, take, drop, get_elem?,
}
use sutil.Prelude.Text.{Bytes}

unfoldable pub packdata_pad : Bytes → ℕ → Bytes
packdata_pad payload pad = put_uvarint (length payload) ++ (payload ++ pad ∷ [])

unfoldable pub packdata : Bytes → Bytes
unfolding packdata_pad
packdata payload = packdata_pad payload 0

-- the errors of `UnPackdata`, by their texts
pub data FrameError : Type 0 where
  head_error too_long too_short pad_error : FrameError

-- how the loop of `UnPackdata` ends: by `return packBuff, nil`, by an error, by a slice out of range,
-- or not within the model's fuel
pub data Stop : Type 0 where
  drained : Stop
  failed : FrameError → Stop
  panicked : Stop
  stuck : Stop

-- one round of the loop: it ends, or it calls `readCall` and goes on with the rest
pub data Round : Type 0 where
  halt : Stop → Round
  took : Bytes → Bytes → Round

-- the round behind the length checks; `apac_len` is a uint64
unfoldable pub cut_frame : Bytes → ℕ → ℕ → Round
cut_frame buf sz apac_len =
    if leb apac_len (length buf)
    then elim (get_elem? buf ((apac_len + 2 ^ 64 - 1) % 2 ^ 64)) [
      | none ↦ halt panicked
      | some pad ↦
          if pad == 0
          then (if ltb (apac_len - 1) sz
              then halt panicked
              else took (take (apac_len - 1 - sz) (drop sz buf)) (drop apac_len buf))
          else halt (failed pad_error)
    ]
    else halt drained

on_header : ℕ → ℕ → Bytes → Header → Round
unfolding cut_frame
on_header lenmin lenmax buf bad = halt (failed head_error)
on_header lenmin lenmax buf short = halt drained
on_header lenmin lenmax buf (head pac_len sz) =
    if ltb lenmax pac_len
    then halt (failed too_long)
    else if ltb pac_len lenmin
    then halt (failed too_short)
    else cut_frame buf sz ((sz + pac_len + 1) % 2 ^ 64)

-- the body of the `for` of `UnPackdata`
unfoldable pub round : ℕ → ℕ → Bytes → Round
unfolding on_header
round lenmin lenmax buf = on_header lenmin lenmax buf (uvarint buf)

-- the arguments of `readCall` in the order of its calls, the slice returned, and how it ended
pub record Unpacked : Type 0 where
  pub calls : List Bytes
  pub rest : Bytes
  pub stop : Stop

abbrev pub called : Bytes → Unpacked → Unpacked
called m u = record u { calls = m ∷ u.calls }

unfoldable pub unpack : ℕ → ℕ → ℕ → Bytes → Unpacked
unpack zero lenmin lenmax buf = record { calls = []; rest = buf; stop = stuck }
unpack (suc fuel) lenmin lenmax buf = elim (round lenmin lenmax buf) [
  | halt s ↦ record { calls = []; rest = buf; stop = s }
  | took m r ↦ called m (unpack fuel lenmin lenmax r)
]

-- A round that goes on takes a byte at least, so one round more than there are bytes is enough.
unfoldable pub unpackdata : ℕ → ℕ → Bytes → Unpacked
unpackdata lenmin lenmax buf = unpack (suc (length buf)) lenmin lenmax buf

-- what `conn.Read` answers
pub data Read : Type 0 where
  chunk : Bytes → Read
  read_error : Read

-- how `PackageSplit` stands: returned (true, nil, err), returned (false, packBuff, err) (with
-- `panicked` and `stuck` as in `Stop`), or waiting in `conn.Read` with its `packBuff`
pub data Split : Type 0 where
  closed : Split
  broke : Bytes → Stop → Split
  reading : Bytes → Split

pub record Session : Type 0 where
  pub calls : List Bytes
  pub state : Split

after_unpack : (Bytes → Session) → Unpacked → Session
after_unpack next u = elim u.stop [
  | drained ↦ record { calls = u.calls ++ (next u.rest).calls; state = (next u.rest).state }
  | failed e ↦ record { calls = u.calls; state = broke u.rest (failed e) }
  | panicked ↦ record { calls = u.calls; state = broke u.rest panicked }
  | stuck ↦ record { calls = u.calls; state = broke u.rest stuck }
]

-- the loop of `PackageSplit` over the answers of `conn.Read`, with `packBuff`
unfoldable pub split_loop : List Read → Bytes → Session
unfolding after_unpack
split_loop [] pack_buff = record { calls = []; state = reading pack_buff }
split_loop (read_error ∷ reads) pack_buff = record { calls = []; state = closed }
split_loop (chunk c ∷ reads) pack_buff =
    after_unpack (split_loop reads) (unpackdata 1 5120 (pack_buff ++ c))

unfoldable pub package_split : List Read → Session
unfolding split_loop
package_split reads = split_loop reads []
