-- ===== src/Stext/Tests.antt =====
-- Concrete formats. Numbers are written in ones, with one more than they count.
use sutil.Prelude.{
  ℕ, Option, some, List, [], ◌∷◌, zero, suc, ◌-◌, ◌≡◌, refl, ap, ◌≢◌, arith, length, replicate, All,
  length-replicate,
}
use sutil.Prelude.Text.{Bytes, codes}
use sutil.Mq.{ℤ, pos}
use sutil.Stext.Pieces.{
  IsInner, Prints, Piece, render, literal, text_of, numbered_piece, location_text-render, in_turn,
}
use sutil.Stext.{location_text}

abbrev ones : ℕ → Bytes
ones n = replicate (suc n) b'1'

abbrev count_ones : Bytes → Option ℤ
count_ones s = some (pos (length s - 1))

ones-IsInner : (n : ℕ) → All IsInner (replicate n b'1')
ones-IsInner zero = tt
ones-IsInner (suc n) = ((ground arith, ground arith, ground arith), ones-IsInner n)

ones_ne : (n : ℕ) → ones n ≢ []
ones_ne n h = ground (arith, h)

ones-Prints : Prints ones count_ones
ones-Prints n small = (
  ap (λ m. some (pos m)) (omega (arith, length-replicate {A = ℕ} (suc n) b'1')),
  ones-IsInner (suc n),
  ones_ne n,
)

abbrev greeting : List Piece
greeting = literal (codes "100% ") ∷ numbered_piece 1 ∷ literal (codes " of ") ∷ in_turn ∷ []

greeting_format : render ones greeting ≡ codes "100%% %111$s of %s"
greeting_format = refl

greeting_run :
    location_text count_ones (codes "100%% %111$s of %s") (codes "A" ∷ codes "B" ∷ [])
    ≡ codes "100% B of A"
unfolding location_text
greeting_run = refl

location_text-render_example :
    location_text count_ones (render ones greeting) (codes "A" ∷ codes "B" ∷ [])
    ≡ text_of (codes "A" ∷ codes "B" ∷ []) 0 greeting
location_text-render_example =
    location_text-render ones count_ones greeting (codes "A" ∷ codes "B" ∷ []) ones-Prints
      (tt, (omega arith, (tt, (tt, tt))))
