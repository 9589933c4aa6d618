-- ===== src/Stext/Streaming.antt =====
-- stext/loctext.go: what LocationText gives, read from left to right without positions.
use sutil.Prelude.{ℕ, Option, none, some, List, [], ◌∷◌, ◌||◌, ◌++◌, ◌==◌, if◌then◌else◌, length}
use sutil.Prelude.Text.{Bytes}
use sutil.Mq.{ℤ}
use sutil.Stext.{replaced, do_fmt}

-- The text behind plain bytes, and behind a percent sign and the bytes `acc`; `next` is the number
-- of the next format without a number.
module _ (atoi : Bytes → Option ℤ) (params : List Bytes) where
  unfoldable pub reads : Bytes → ℕ → Option Bytes → Bytes
  reads [] next none = []
  reads [] next (some acc) = b'%' ∷ acc
  reads (c ∷ s) next none = if c == b'%' then reads s next (some []) else c ∷ reads s next none
  reads (c ∷ s) next (some acc) =
      let again = b'%' ∷ (acc ++ reads s next (some [])) in
      let escaped = b'%' ∷ reads s next none in
      let (text, after) = replaced params (b'%' ∷ (acc ++ (c ∷ []))) (do_fmt atoi acc) next in
      let verb = text ++ reads s after none in
      let longer = reads s next (some (acc ++ (c ∷ []))) in
      if c == b'%'
      then (if length acc == 0 then escaped else again)
      else if c == b'@' || c == b's'
      then verb
      else longer
