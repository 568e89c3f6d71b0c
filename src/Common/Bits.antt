-- ===== src/Common/Bits.antt =====
-- The uses of `|` in the source, as arithmetic: packing two fields, and setting a flag.
use Prim.Native.Nat.{
  ℕ, zero, suc, ◌+◌, ◌-◌, ◌*◌, ◌/◌, ◌%◌, ◌^◌, ◌≤◌, ◌<◌, max, bit_or, digits, bit_or-bitwise,
}
use mathlib.Core.Path.{◌≡◌, refl, ap}
use native.Mathlib.Omega.{arith}
use native.Mathlib.Nat.{pow-suc}

-- `digits` at two amounts of fuel, both enough.
or_digits_fuel :
    (n m a b : ℕ) → a ≤ n → a ≤ m → digits (λ y. y) max n a b ≡ digits (λ y. y) max m a b
or_digits_fuel zero zero a b p q = refl
or_digits_fuel zero (suc m) zero b p q = refl
or_digits_fuel zero (suc m) (suc a) b p q = absurd (omega arith)
or_digits_fuel (suc n) zero zero b p q = refl
or_digits_fuel (suc n) zero (suc a) b p q = absurd (omega arith)
or_digits_fuel (suc n) (suc m) zero b p q = refl
or_digits_fuel (suc n) (suc m) (suc a) b p q =
    omega (arith, or_digits_fuel n m (suc a / 2) (b / 2) (omega arith) (omega arith))

zero-bit_or : (b : ℕ) → bit_or 0 b ≡ b
zero-bit_or b = bit_or-bitwise 0 b

-- The lowest digit apart from the rest.
pub bit_or_halves : (a b : ℕ) → bit_or a b ≡ 2 * bit_or (a / 2) (b / 2) + max (a % 2) (b % 2)
bit_or_halves zero b = omega (arith, zero-bit_or b, zero-bit_or (b / 2))
bit_or_halves (suc a) b = omega (
  arith,
  bit_or-bitwise (suc a) b,
  bit_or-bitwise (suc a / 2) (b / 2),
  or_digits_fuel a (suc a / 2) (suc a / 2) (b / 2) (omega arith) (omega arith),
)

bit_or-zero_below : (n a : ℕ) → a ≤ n → bit_or a 0 ≡ a
bit_or-zero_below n zero h = zero-bit_or 0
bit_or-zero_below zero (suc a) h = absurd (omega arith)
bit_or-zero_below (suc n) (suc a) h =
    omega (arith, bit_or_halves (suc a) 0, bit_or-zero_below n (suc a / 2) (omega arith))

pub bit_or-zero : (a : ℕ) → bit_or a 0 ≡ a
bit_or-zero a = bit_or-zero_below a a (omega arith)

-- `(hi << k) | lo` is a sum when `lo` has at most `k` bits.
pub bit_or-shift : (k hi lo : ℕ) → lo < 2 ^ k → bit_or (hi * 2 ^ k) lo ≡ hi * 2 ^ k + lo
bit_or-shift zero hi lo h = ground (arith, bit_or-zero hi)
bit_or-shift (suc k) hi lo h = ground (
  arith,
  bit_or_halves (hi * 2 ^ suc k) lo,
  ap (λ (t : ℕ). hi * t) (pow-suc 2 k),
  pow-suc 2 k,
  bit_or-shift k hi (lo / 2) (omega (arith, pow-suc 2 k)),
)

-- `x | 1` and `x | 2`.
pub bit_or-one : (x : ℕ) → bit_or x 1 ≡ x - x % 2 + 1
bit_or-one x = omega (arith, bit_or_halves x 1, bit_or-zero (x / 2))

pub bit_or_two : (x : ℕ) → bit_or x 2 ≡ x - x % 4 + x % 2 + 2
bit_or_two x = omega (arith, bit_or_halves x 2, bit_or-one (x / 2))
