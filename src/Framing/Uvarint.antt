-- ===== src/Framing/Uvarint.antt =====
-- `binary.Uvarint` and `binary.PutUvarint` of Go's encoding/binary: groups of seven bits, the lowest
-- first, ten bytes at most and the tenth at most 1.
use native.Mathlib.Nat.{pow-suc}
use sutil.Prelude.{
  ℕ, zero, suc, ◌+◌, ◌*◌, ◌/◌, ◌%◌, ◌^◌, ◌≤◌, ◌<◌, ◌≡◌, ◌⊎◌, inl, inr, refl, arith, ◌&&◌, [], ◌∷◌,
  ◌++◌, ltb, ◌==◌, if◌then◌else◌, length,
}
use sutil.Prelude.Text.{Bytes}

-- the answers of `Uvarint`: n < 0 (the value passes 64 bits), n = 0 (too few bytes), or a value and
-- the number of bytes it took
pub data Header : Type 0 where
  bad : Header
  short : Header
  head : ℕ → ℕ → Header

abbrev add_group : ℕ → Header → Header
add_group b bad = bad
add_group b short = short
add_group b (head v n) = head (b % 128 + 128 * v) (n + 1)

-- `left` is the number of bytes that the value may still take
unfoldable pub uvarint_at : ℕ → Bytes → Header
uvarint_at left [] = short
uvarint_at zero (b ∷ bs) = bad
uvarint_at (suc left) (b ∷ bs) =
    let more = add_group b (uvarint_at left bs) in
    if ltb b 128 then (if left == 0 && ltb 1 b then bad else head b 1) else more

unfoldable pub uvarint : Bytes → Header
unfolding uvarint_at
uvarint buf = uvarint_at 10 buf

-- `left` is the number of groups that may follow this one
unfoldable pub put_groups : ℕ → ℕ → Bytes
put_groups zero x = x ∷ []
put_groups (suc left) x =
    let more = (x % 128 + 128) ∷ put_groups left (x / 128) in if ltb x 128 then x ∷ [] else more

unfoldable pub put_uvarint : ℕ → Bytes
unfolding put_groups
put_uvarint x = put_groups 9 x

uvarint_at-put_groups :
    (left x : ℕ) (rest : Bytes)
    → x < 2 * 128 ^ left
    → uvarint_at (suc left) (put_groups left x ++ rest) ≡ head x (length (put_groups left x))
unfolding uvarint_at put_groups
uvarint_at-put_groups zero x rest h = ground arith
uvarint_at-put_groups (suc left) x rest h = ground (
  arith,
  pow-suc 128 left,
  uvarint_at-put_groups left (x / 128) rest (omega (arith, pow-suc 128 left)),
)

-- Every uint64 is read back, whatever follows it.
pub uvarint-put_uvarint :
    (x : ℕ) (rest : Bytes)
    → x < 2 ^ 64
    → uvarint (put_uvarint x ++ rest) ≡ head x (length (put_uvarint x))
unfolding uvarint put_uvarint
uvarint-put_uvarint x rest h = uvarint_at-put_groups 9 x rest (omega arith)

pub Header-cases : (h : Header) → (h ≡ bad) ⊎ ((h ≡ short) ⊎ ((v : ℕ) × (n : ℕ) × (h ≡ head v n)))
Header-cases bad = inl refl
Header-cases short = inr (inl refl)
Header-cases (head v n) = inr (inr (v, n, refl))

uvarint_at-append_head :
    (left : ℕ) (buf more : Bytes) (v n : ℕ)
    → uvarint_at left buf ≡ head v n
    → (uvarint_at left (buf ++ more) ≡ head v n) × (1 ≤ n) × (n ≤ length buf) × (n ≤ left)
unfolding uvarint_at
uvarint_at-append_head left [] more v n e = cc
uvarint_at-append_head zero (b ∷ bs) more v n e = cc
uvarint_at-append_head (suc left) (b ∷ bs) more v n e = elim (Header-cases (uvarint_at left bs)) [
  | inl e' ↦ ground arith
  | inr (inl e') ↦ ground arith
  | inr (inr (v', n', e')) ↦ ground (arith, uvarint_at-append_head left bs more v' n' e')
]

uvarint_at-append_bad :
    (left : ℕ) (buf more : Bytes) → uvarint_at left buf ≡ bad → uvarint_at left (buf ++ more) ≡ bad
unfolding uvarint_at
uvarint_at-append_bad left [] more e = cc
uvarint_at-append_bad zero (b ∷ bs) more e = refl
uvarint_at-append_bad (suc left) (b ∷ bs) more e = elim (Header-cases (uvarint_at left bs)) [
  | inl e' ↦ ground (arith, uvarint_at-append_bad left bs more e')
  | inr (inl e') ↦ ground arith
  | inr (inr (v', n', e')) ↦ ground arith
]

-- A number that was read is read the same where more bytes follow, and it took 1 to 10 bytes.
pub uvarint-append_head :
    (buf more : Bytes) (v n : ℕ)
    → uvarint buf ≡ head v n
    → (uvarint (buf ++ more) ≡ head v n) × (1 ≤ n) × (n ≤ length buf) × (n ≤ 10)
unfolding uvarint
uvarint-append_head buf more v n e = uvarint_at-append_head 10 buf more v n e

pub uvarint-append_bad : (buf more : Bytes) → uvarint buf ≡ bad → uvarint (buf ++ more) ≡ bad
unfolding uvarint
uvarint-append_bad buf more e = uvarint_at-append_bad 10 buf more e
