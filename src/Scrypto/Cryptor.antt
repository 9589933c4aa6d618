-- ===== src/Scrypto/Cryptor.antt =====
-- `AesCryptor`: decryption undoes encryption.
use sutil.Scrypto.Padding.{padding_whole, unpadding-padding}
use sutil.Scrypto.Ecb.{IsCipher, crypt_blocks_inverse}
use sutil.Scrypto.{
  ok, Block, BlockMode, ecb, padding, crypt_blocks, AesCryptor, new_aes_cryptor, encrypt, decrypt,
}
use sutil.Prelude.{ℕ, ◌+◌, ◌*◌, ◌/◌, ◌≤◌, ◌<◌, ◌≡◌, refl, true, arith, length}
use sutil.Prelude.Text.{Bytes}

-- What `Encrypt` and `Decrypt` rely on of the two block modes of a cryptor.
pub record Inverse (m : AesCryptor) : Type 0 where
  pub positive : 1 ≤ m.block.block_size
  pub small : m.block.block_size < 256
  pub undoes :
      (src : Bytes) (k : ℕ)
      → length src ≡ k * m.block.block_size
      → (c : Bytes) × (m.encrypter src ≡ ok c) × (m.decrypter c ≡ ok src)

decrypt-encrypt_of_Inverse :
    (m : AesCryptor) (src : Bytes)
    → Inverse m
    → (c : Bytes) × (encrypt m src ≡ ok c) × (decrypt m c ≡ ok src)
unfolding encrypt decrypt
decrypt-encrypt_of_Inverse m src h =
    let n = m.block.block_size in
    let (c, e, d) =
      h.undoes (padding src n) (length src / n + 1) (padding_whole src n h.positive) in
    (c, e, ground (arith, unpadding-padding src n h.positive h.small))

-- A cryptor made for ECB with PKCS5 padding encrypts data of every length without error or panic, and
-- decrypting the result gives the data back, for any cipher whose blocks are shorter than 256 bytes.
pub decrypt-encrypt :
    (cbc_encrypter cbc_decrypter : Block → BlockMode) (b : Block) (src : Bytes)
    → IsCipher b
    → b.block_size < 256
    → (m : AesCryptor) × (c : Bytes) × (new_aes_cryptor cbc_encrypter cbc_decrypter (ok b) ecb true
        ≡ ok m)
      × (encrypt m src ≡ ok c)
      × (decrypt m c ≡ ok src)
unfolding new_aes_cryptor
decrypt-encrypt cbc_encrypter cbc_decrypter b src laws small =
    let m : AesCryptor = record {
      block = b;
      encrypter = crypt_blocks b.block_size b.encrypt;
      decrypter = crypt_blocks b.block_size b.decrypt;
    } in
    let (c, e, d) =
      decrypt-encrypt_of_Inverse m src (record {
        positive = laws.positive;
        small = small;
        undoes = crypt_blocks_inverse b laws;
      }) in
    (m, c, refl, e, d)
