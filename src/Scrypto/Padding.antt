-- ===== src/Scrypto/Padding.antt =====
-- PKCS5 padding and its removal.
use native.Mathlib.Nat.{mod-lt, div-add-mod}
use sutil.Scrypto.{ok, panicked, padding, at, unpadding}
use sutil.Prelude.{
  ℕ, zero, suc, ◌+◌, ◌-◌, ◌*◌, ◌/◌, ◌%◌, ◌≤◌, ◌<◌, ◌≡◌, refl, ap, ◌∙◌, [], ◌∷◌, ◌++◌, arith, ltb,
  if◌then◌else◌, length, take, replicate, length-append, length-replicate, take-append_front,
}
use sutil.Prelude.Text.{Bytes}

at-append : (s t : Bytes) (i : ℕ) → at (s ++ t) (length s + i) ≡ at t i
unfolding at
at-append [] t i = ap (at t) (omega arith)
at-append (c ∷ s) t i = ground (arith, at-append s t i)

at-replicate : (n v i : ℕ) → i < n → at (replicate n v) i ≡ ok v
unfolding at
at-replicate zero v i h = absurd (omega arith)
at-replicate (suc n) v zero h = refl
at-replicate (suc n) v (suc i) h = at-replicate n v i (omega arith)

-- `unpadding` by the last byte
unpadding_last :
    (s : Bytes) (pad n : ℕ)
    → length s ≡ suc n
    → at s n ≡ ok pad
    → unpadding s ≡ (if ltb (length s) pad then panicked else ok (take (length s - pad) s))
unfolding unpadding
unpadding_last [] pad n h e = absurd (omega arith)
unpadding_last (c ∷ s) pad n h e = ground arith

-- the amount of padding: from one byte to a whole block
pub pad_bounds :
    (n block_size : ℕ)
    → 1 ≤ block_size
    → (1 ≤ block_size - n % block_size) × (block_size - n % block_size ≤ block_size)
pad_bounds n block_size h = omega (arith, mod-lt n h)

length-padding :
    (src : Bytes) (block_size : ℕ)
    → length (padding src block_size) ≡ length src + (block_size - length src % block_size)
unfolding padding
length-padding src block_size =
    length-append src _ ∙ ap (λ (t : ℕ). length src + t) (length-replicate _ _)

-- Padded data fills its last block: its length is a multiple of the block size.
pub padding_whole :
    (src : Bytes) (block_size : ℕ)
    → 1 ≤ block_size
    → length (padding src block_size) ≡ (length src / block_size + 1) * block_size
padding_whole src block_size h = omega (
  arith,
  length-padding src block_size,
  div-add-mod (length src) block_size,
  mod-lt (length src) h,
)

-- Removing the padding gives the data back, where the block size fits in a byte.
pub unpadding-padding :
    (src : Bytes) (block_size : ℕ)
    → 1 ≤ block_size
    → block_size < 256
    → unpadding (padding src block_size) ≡ ok src
unfolding padding
unpadding-padding src block_size h small =
    let pad = block_size - length src % block_size in
    let tail = replicate pad (pad % 256) in
    ground (
      arith,
      pad_bounds (length src) block_size h,
      unpadding_last (src ++ tail) (pad % 256) (length src + (pad - 1)),
      at-append src tail (pad - 1),
      at-replicate pad (pad % 256) (pad - 1),
      length-append src tail,
      length-replicate pad (pad % 256),
      take-append_front (length src) src tail,
    )
