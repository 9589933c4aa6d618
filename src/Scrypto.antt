-- ===== src/Scrypto.antt =====
-- scrypto: PKCS5 padding (padding.go), the ECB block mode (ecb.go) and the cryptor that joins them
-- (aes.go). The block cipher of crypto/aes is a parameter: one function for a block each way, and its
-- block size. A byte slice is a list, and an index out of range is a panic.
use sutil.Prelude.{
  ℕ, zero, suc, ◌-◌, ◌%◌, Bool, [], ◌∷◌, ◌++◌, ltb, ◌==◌, if◌then◌else◌, length, take, drop,
  replicate,
}
use sutil.Prelude.Text.{Bytes}
pub mod Padding
pub mod Ecb
pub mod Cryptor
mod Tests

-- a value, an error, or a panic
pub data Result {ℓ} (A : Type ℓ) : Type ℓ where
  ok : A → Result A
  err : Result A
  panicked : Result A

infixl 5 ◌>>=◌
abbrev pub ◌>>=◌ {ℓ κ} : {A : Type ℓ} {B : Type κ} → Result A → (A → Result B) → Result B
ok a >>= f = f a
err >>= f = err
panicked >>= f = panicked

-- `PKCS5Padding.Padding`; `byte(padding)` wraps around
unfoldable pub padding : Bytes → ℕ → Bytes
padding cipher_text block_size =
    let pad = block_size - length cipher_text % block_size in
    cipher_text ++ replicate pad (pad % 256)

-- `encrypt[i]`
unfoldable pub at : Bytes → ℕ → Result ℕ
at [] i = panicked
at (c ∷ s) zero = ok c
at (c ∷ s) (suc i) = at s i

-- `PKCS5Padding.UnPadding`: both slice expressions can be out of range
unfoldable pub unpadding : Bytes → Result Bytes
unfolding at
unpadding [] = panicked
unpadding (c ∷ s) = do
  pad ← at (c ∷ s) (length s)
  if ltb (length (c ∷ s)) pad then panicked else ok (take (length (c ∷ s) - pad) (c ∷ s))

-- A `cipher.Block`.
pub record Block : Type 0 where
  pub block_size : ℕ
  pub encrypt : Bytes → Bytes
  pub decrypt : Bytes → Bytes

-- the loop of `CryptBlocks`, on one of the block's two functions: what it writes to `dst`; each round
-- takes a block, so the number of bytes is enough fuel
unfoldable pub crypt_loop : ℕ → ℕ → (Bytes → Bytes) → Bytes → Bytes
crypt_loop fuel block_size crypt [] = []
crypt_loop zero block_size crypt (c ∷ src) = []
crypt_loop (suc fuel) block_size crypt (c ∷ src) =
    crypt (take block_size (c ∷ src))
    ++ crypt_loop fuel block_size crypt (drop block_size (c ∷ src))

-- `CryptBlocks` into a `dst` as long as `src`, as both callers make it
unfoldable pub crypt_blocks : ℕ → (Bytes → Bytes) → Bytes → Result Bytes
unfolding crypt_loop
crypt_blocks block_size crypt src =
    if (length src % block_size) == 0
    then ok (crypt_loop (length src) block_size crypt src)
    else panicked

-- A `cipher.BlockMode`: what `CryptBlocks` writes. The block mode CBC is that of crypto/cipher, a
-- parameter of `get_encrypter` and `get_decrypter`.
abbrev pub BlockMode : Type 0
BlockMode = Bytes → Result Bytes

pub data ModeName : Type 0 where
  cbc ecb : ModeName
  other_mode : ModeName

unfoldable pub get_encrypter : (Block → BlockMode) → Block → ModeName → Result BlockMode
get_encrypter cbc_encrypter block cbc = ok (cbc_encrypter block)
get_encrypter cbc_encrypter block ecb = ok (crypt_blocks block.block_size block.encrypt)
get_encrypter cbc_encrypter block other_mode = err

unfoldable pub get_decrypter : (Block → BlockMode) → Block → ModeName → Result BlockMode
get_decrypter cbc_decrypter block cbc = ok (cbc_decrypter block)
get_decrypter cbc_decrypter block ecb = ok (crypt_blocks block.block_size block.decrypt)
get_decrypter cbc_decrypter block other_mode = err

pub record AesCryptor : Type 0 where
  pub block : Block
  pub encrypter : BlockMode
  pub decrypter : BlockMode

-- `NewAesCryptor` behind `aes.NewCipher`, and `newPadding`, whose one padding is PKCS5
unfoldable pub new_aes_cryptor :
    (Block → BlockMode) → (Block → BlockMode) → Result Block → ModeName → Bool → Result AesCryptor
unfolding get_encrypter get_decrypter
new_aes_cryptor cbc_encrypter cbc_decrypter cipher mode is_pkcs5 = do
  block ← cipher
  encrypter ← get_encrypter cbc_encrypter block mode
  decrypter ← get_decrypter cbc_decrypter block mode
  if is_pkcs5
      then ok (record { block = block; encrypter = encrypter; decrypter = decrypter })
      else err

-- `AesCryptor.Encrypt` and `AesCryptor.Decrypt`
unfoldable pub encrypt : AesCryptor → Bytes → Result Bytes
encrypt m src = m.encrypter (padding src m.block.block_size)

unfoldable pub decrypt : AesCryptor → Bytes → Result Bytes
decrypt m encrypted_data = do decrypted ← m.decrypter encrypted_data; unpadding decrypted
