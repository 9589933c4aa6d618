-- ===== src/Prelude/Bits.antt =====
-- Shifted fields that are joined by `|`: where no bits meet, the join is a sum. The native
-- operation means a recursion on binary digits, `digits`, on fuel.
use Prim.Native.Nat.{
  ℕ, zero, suc, ◌+◌, ◌*◌, ◌/◌, ◌%◌, ◌^◌, ◌≤◌, ◌<◌, max, digits, bit_or, bit_or-bitwise,
}
use mathlib.Core.Path.{◌≡◌, refl, ap}
use native.Mathlib.Nat.{pow-suc}
use native.Mathlib.Omega.{arith}

abbrev or_on : ℕ → ℕ → ℕ → ℕ
or_on fuel a b = digits (λ y. y) max fuel a b

-- more fuel than the first number changes nothing
or_on_stable : (a b f g : ℕ) → a ≤ f → a ≤ g → or_on f a b ≡ or_on g a b
or_on_stable zero b zero zero hf hg = refl
or_on_stable zero b zero (suc g) hf hg = refl
or_on_stable zero b (suc f) zero hf hg = refl
or_on_stable zero b (suc f) (suc g) hf hg = refl
or_on_stable (suc a) b zero g hf hg = absurd (omega arith)
or_on_stable (suc a) b (suc f) zero hf hg = absurd (omega arith)
or_on_stable (suc a) b (suc f) (suc g) hf hg =
    omega (arith, or_on_stable (suc a / 2) (b / 2) f g (omega arith) (omega arith))

or_halves : (a b : ℕ) → bit_or a b ≡ bit_or (a / 2) (b / 2) * 2 + max (a % 2) (b % 2)
or_halves zero b = omega (arith, bit_or-bitwise 0 b, bit_or-bitwise 0 (b / 2))
or_halves (suc a) b = omega (
  arith,
  bit_or-bitwise (suc a) b,
  bit_or-bitwise (suc a / 2) (b / 2),
  or_on_stable (suc a / 2) (b / 2) a (suc a / 2) (omega arith) (omega arith),
)

or-zero_below : (n a : ℕ) → a ≤ n → bit_or a 0 ≡ a
or-zero_below n zero h = refl
or-zero_below zero (suc a) h = absurd (omega arith)
or-zero_below (suc n) (suc a) h =
    omega (arith, or_halves (suc a) 0, or-zero_below n (suc a / 2) (omega arith))

-- `hi << k | lo` is a sum where `lo` fits in `k` bits.
pub or_shifted : (k hi lo : ℕ) → lo < 2 ^ k → bit_or (hi * 2 ^ k) lo ≡ hi * 2 ^ k + lo
or_shifted zero hi lo h = ground (arith, or-zero_below hi hi (omega arith))
or_shifted (suc k) hi lo h = ground (
  arith,
  or_halves (hi * 2 ^ suc k) lo,
  ap (λ (t : ℕ). hi * t) (pow-suc 2 k),
  pow-suc 2 k,
  or_shifted k hi (lo / 2) (omega (arith, pow-suc 2 k)),
)
