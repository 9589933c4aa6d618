-- ===== src/Scrypto/Tests.antt =====
-- Padding, ECB and the cryptor at a toy cipher with blocks of four bytes.
use sutil.Scrypto.Ecb.{IsCipher}
use sutil.Scrypto.Cryptor.{decrypt-encrypt}
use sutil.Scrypto.{
  ok, err, panicked, Block, padding, unpadding, AesCryptor, new_aes_cryptor, encrypt, decrypt, ecb,
}
use sutil.Prelude.{suc, ◌+◌, ◌-◌, ◌≡◌, refl, ap, ◌∙◌, true, [], ◌∷◌, map, arith, length}
use sutil.Prelude.Text.{Bytes, codes}

abbrev up : Bytes → Bytes
up s = map (λ c. c + 1) s

abbrev down : Bytes → Bytes
down s = map (λ c. c - 1) s

abbrev toy : Block
toy = record { block_size = 4; encrypt = up; decrypt = down }

length-up : (s : Bytes) → length (up s) ≡ length s
length-up [] = refl
length-up (c ∷ s) = ap suc (length-up s)

down-up : (s : Bytes) → down (up s) ≡ s
down-up [] = refl
down-up (c ∷ s) = ground (arith, down-up s)

toy-IsCipher : IsCipher toy
toy-IsCipher = record {
  positive = omega arith;
  whole = λ x e. length-up x ∙ e;
  inverse = λ x e. down-up x;
}

padded : padding (codes "ab") 4 ≡ b'a' ∷ b'b' ∷ 2 ∷ 2 ∷ []
unfolding padding
padded = refl

-- the last byte asks for more padding than there is data
damaged : unpadding (1 ∷ 9 ∷ []) ≡ panicked
unfolding unpadding
damaged = refl

decrypt-encrypt_example :
    (m : AesCryptor) × (c : Bytes) × (new_aes_cryptor (λ b x. err) (λ b x. err) (ok toy) ecb true
      ≡ ok m)
    × (encrypt m (codes "secret") ≡ ok c)
    × (decrypt m c ≡ ok (codes "secret"))
decrypt-encrypt_example =
    decrypt-encrypt (λ b x. err) (λ b x. err) toy (codes "secret") toy-IsCipher (omega arith)
