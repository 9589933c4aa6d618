-- ===== src/Scrypto/Ecb.antt =====
-- The block mode ECB: decrypting block by block undoes encrypting block by block.
use native.Mathlib.Nat.{mul-mod_left}
use sutil.Scrypto.{ok, panicked, Block, crypt_loop, crypt_blocks}
use sutil.Prelude.{
  ℕ, zero, suc, ◌*◌, ◌≤◌, ◌≡◌, refl, [], ◌∷◌, ◌++◌, arith, length, take-append_front,
  drop-append_front, ◌%◌, ◌≢◌, take, drop, length-append, length-take, length-drop,
  take-append-drop,
}
use sutil.Prelude.Text.{Bytes}

-- What the code relies on of a `cipher.Block`: on whole blocks, encryption gives a whole block and
-- decryption undoes it.
pub record IsCipher (b : Block) : Type 0 where
  pub positive : 1 ≤ b.block_size
  pub whole : (x : Bytes) → length x ≡ b.block_size → length (b.encrypt x) ≡ b.block_size
  pub inverse : (x : Bytes) → length x ≡ b.block_size → b.decrypt (b.encrypt x) ≡ x

crypt_loop_block :
    (fuel n : ℕ) (crypt : Bytes → Bytes) (x rest : Bytes)
    → 1 ≤ n
    → length x ≡ n
    → crypt_loop (suc fuel) n crypt (x ++ rest) ≡ crypt x ++ crypt_loop fuel n crypt rest
unfolding crypt_loop
crypt_loop_block fuel n crypt [] rest h e = absurd (omega arith)
crypt_loop_block fuel n crypt (c ∷ x) rest h e =
    ground (arith, take-append_front n (c ∷ x) rest, drop-append_front n (c ∷ x) rest)

le_mul : (k n : ℕ) → 1 ≤ n → k ≤ k * n
le_mul k n h = grind arith

module _ (b : Block) (laws : IsCipher b) where
  crypt_loop_inverse :
      (k f g : ℕ) (src : Bytes)
      → length src ≡ k * b.block_size
      → k ≤ f
      → k ≤ g
      → (crypt_loop g b.block_size b.decrypt (crypt_loop f b.block_size b.encrypt src) ≡ src)
        × (length (crypt_loop f b.block_size b.encrypt src) ≡ k * b.block_size)
  crypt_loop_inverse zero f g [] e hf hg = unfold crypt_loop in (refl, omega arith)
  crypt_loop_inverse zero f g (c ∷ src) e hf hg = absurd (omega arith)
  crypt_loop_inverse (suc k) zero g src e hf hg = absurd (omega arith)
  crypt_loop_inverse (suc k) (suc f) zero src e hf hg = absurd (omega arith)
  crypt_loop_inverse (suc k) (suc f) (suc g) src e hf hg =
      let n = b.block_size in
      let x = take n src in
      let rest = drop n src in
      let x_whole : length x ≡ n = omega (arith, length-take n src) in
      let c_whole = laws.whole x x_whole in
      let (ih, ih_length) =
        crypt_loop_inverse k f g rest (omega (arith, length-drop n src)) (omega arith)
          (omega arith) in
      rw (← take-append-drop n src) (
        ground (
          arith,
          crypt_loop_block f n b.encrypt x rest laws.positive x_whole,
          crypt_loop_block g n b.decrypt (b.encrypt x) (crypt_loop f n b.encrypt rest) laws.positive
              c_whole,
          laws.inverse x x_whole,
          length-append (b.encrypt x) (crypt_loop f n b.encrypt rest),
        ))

  -- On whole blocks ECB encryption succeeds with as many bytes, and ECB decryption of those gives the
  -- input back.
  pub crypt_blocks_inverse :
      (src : Bytes) (k : ℕ)
      → length src ≡ k * b.block_size
      → (c : Bytes) × (crypt_blocks b.block_size b.encrypt src ≡ ok c)
        × (crypt_blocks b.block_size b.decrypt c ≡ ok src)
  unfolding crypt_blocks
  crypt_blocks_inverse src k e =
      let n = b.block_size in
      let c = crypt_loop (length src) n b.encrypt src in
      let few : k ≤ length src = rw e (le_mul k n laws.positive) in
      let long = (crypt_loop_inverse k (length src) (length src) src e few few).1 in
      let back =
        (crypt_loop_inverse k (length src) (length c) src e few (omega (arith, long, few, e))).0 in
      (c, ground (arith, mul-mod_left k n), ground (arith, mul-mod_left k n, back))

-- Input that is not whole blocks is refused by a panic, never cut off.
pub crypt_blocks_partial :
    (n : ℕ) (crypt : Bytes → Bytes) (src : Bytes)
    → length src % n ≢ 0
    → crypt_blocks n crypt src ≡ panicked
unfolding crypt_blocks
crypt_blocks_partial n crypt src h = ground arith
