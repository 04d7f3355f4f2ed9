-- ===== src/Base/Bits.antt =====
-- Laws of the C operators `&` and `|` at variables: masks of low bits, and the union of fields that
-- share no bit.
use Prim.Native.Nat.{
  ℕ, zero, suc, ◌+◌, ◌*◌, ◌/◌, ◌%◌, ◌^◌, ◌≤◌, ◌<◌, min, max, bit_and, bit_or, digits,
  bit_and-bitwise, bit_or-bitwise,
}
use mathlib.Core.Path.{◌≡◌, refl}
use native.Mathlib.Omega.{arith}
use native.Mathlib.Nat.{pow-suc}

-- The native operations stand for a recursion over binary digits. Its fuel does not matter.
digits_fuel :
    (f : ℕ → ℕ) (g : ℕ → ℕ → ℕ) (n m a b : ℕ) → a ≤ n → a ≤ m → digits f g n a b ≡ digits f g m a b
digits_fuel f g zero zero a b p q = refl
digits_fuel f g zero (suc m) zero b p q = refl
digits_fuel f g zero (suc m) (suc a) b p q = absurd (omega arith)
digits_fuel f g (suc n) zero zero b p q = refl
digits_fuel f g (suc n) zero (suc a) b p q = absurd (omega arith)
digits_fuel f g (suc n) (suc m) zero b p q = refl
digits_fuel f g (suc n) (suc m) (suc a) b p q =
    omega (arith, digits_fuel f g n m (suc a / 2) (b / 2) (omega arith) (omega arith))

-- The lowest digit, and the rest.
and_step : (a b : ℕ) → bit_and a b ≡ bit_and (a / 2) (b / 2) * 2 + min (a % 2) (b % 2)
and_step zero b = omega (arith, bit_and-bitwise 0 b, bit_and-bitwise 0 (b / 2))
and_step (suc a) b =
    let fuel = digits_fuel (λ _. zero) min a (suc a / 2) (suc a / 2) (b / 2) in
    omega (arith, bit_and-bitwise (suc a) b, bit_and-bitwise (suc a / 2) (b / 2), fuel)

or_step : (a b : ℕ) → bit_or a b ≡ bit_or (a / 2) (b / 2) * 2 + max (a % 2) (b % 2)
or_step zero b = omega (arith, bit_or-bitwise 0 b, bit_or-bitwise 0 (b / 2))
or_step (suc a) b =
    let fuel = digits_fuel (λ d. d) max a (suc a / 2) (suc a / 2) (b / 2) in
    omega (arith, bit_or-bitwise (suc a) b, bit_or-bitwise (suc a / 2) (b / 2), fuel)

and_zero : (n a : ℕ) → a ≤ n → bit_and a 0 ≡ 0
and_zero n zero h = bit_and-bitwise 0 0
and_zero zero (suc a) h = absurd (omega arith)
and_zero (suc n) (suc a) h = omega (arith, and_step (suc a) 0, and_zero n (suc a / 2) (omega arith))

or_zero : (n a : ℕ) → a ≤ n → bit_or a 0 ≡ a
or_zero n zero h = bit_or-bitwise 0 0
or_zero zero (suc a) h = absurd (omega arith)
or_zero (suc n) (suc a) h = omega (arith, or_step (suc a) 0, or_zero n (suc a / 2) (omega arith))

-- `a & (2^k - 1)` keeps the low k bits, at the masks that the program uses.
pub bit_and_1 : (a : ℕ) → bit_and a 1 ≡ a % 2
bit_and_1 a = omega (arith, and_step a 1, and_zero (a / 2) (a / 2) (omega arith))

bit_and_3 : (a : ℕ) → bit_and a 3 ≡ a % 4
bit_and_3 a = omega (arith, and_step a 3, bit_and_1 (a / 2))

pub bit_and_7 : (a : ℕ) → bit_and a 7 ≡ a % 8
bit_and_7 a = omega (arith, and_step a 7, bit_and_3 (a / 2))

pub bit_and_15 : (a : ℕ) → bit_and a 0x0F ≡ a % 16
bit_and_15 a = omega (arith, and_step a 15, bit_and_7 (a / 2))

bit_and_63 : (a : ℕ) → bit_and a 63 ≡ a % 64
bit_and_63 a = omega (arith, and_step a 63, and_step (a / 2) 31, bit_and_15 (a / 2 / 2))

pub bit_and_127 : (a : ℕ) → bit_and a 0x7F ≡ a % 128
bit_and_127 a = omega (arith, and_step a 127, bit_and_63 (a / 2))

-- The test of the top bit of a byte.
bit_and_16 : (a : ℕ) → bit_and a 16 ≡ a / 16 % 2 * 16
bit_and_16 a = omega (
  arith,
  and_step a 16,
  and_step (a / 2) 8,
  and_step (a / 2 / 2) 4,
  and_step (a / 2 / 2 / 2) 2,
  bit_and_1 (a / 2 / 2 / 2 / 2),
)

pub bit_and_32 : (a : ℕ) → bit_and a 0x20 ≡ a / 32 % 2 * 32
bit_and_32 a = omega (arith, and_step a 32, bit_and_16 (a / 2))

pub bit_and_128 : (a : ℕ) → bit_and a 0x80 ≡ a / 128 % 2 * 128
bit_and_128 a = omega (
  arith,
  and_step a 128,
  and_step (a / 2) 64,
  and_step (a / 2 / 2) 32,
  bit_and_16 (a / 2 / 2 / 2),
)

pub bit_and_255 : (a : ℕ) → bit_and a 0xFF ≡ a % 256
bit_and_255 a = omega (arith, and_step a 255, bit_and_127 (a / 2))

bit_and_4095 : (a : ℕ) → bit_and a 0xFFF ≡ a % 4096
bit_and_4095 a = omega (
  arith,
  and_step a 4095,
  and_step (a / 2) 2047,
  and_step (a / 2 / 2) 1023,
  and_step (a / 2 / 2 / 2) 511,
  bit_and_255 (a / 2 / 2 / 2 / 2),
)

pub bit_and_65535 : (a : ℕ) → bit_and a 0xFFFF ≡ a % 65536
bit_and_65535 a = omega (
  arith,
  and_step a 65535,
  and_step (a / 2) 32767,
  and_step (a / 2 / 2) 16383,
  and_step (a / 2 / 2 / 2) 8191,
  bit_and_4095 (a / 2 / 2 / 2 / 2),
)

-- `a & 0xF0` keeps bits 4 to 7.
pub bit_and_240 : (a : ℕ) → bit_and a 0xF0 ≡ a / 16 % 16 * 16
bit_and_240 a = omega (
  arith,
  and_step a 240,
  and_step (a / 2) 120,
  and_step (a / 2 / 2) 60,
  and_step (a / 2 / 2 / 2) 30,
  bit_and_15 (a / 2 / 2 / 2 / 2),
)

-- `(h << k) | l` puts the two side by side.
pub bit_or_shift : (k h l : ℕ) → l < 2 ^ k → bit_or (h * 2 ^ k) l ≡ h * 2 ^ k + l
bit_or_shift zero h zero lt = omega (arith, or_zero (h * 1) (h * 1) (omega arith))
bit_or_shift zero h (suc l) lt = absurd (omega arith)
bit_or_shift (suc k) h l lt =
    let half : h * (2 ^ k * 2) / 2 ≡ h * 2 ^ k = omega arith in
    let rest : bit_or (h * (2 ^ k * 2) / 2) (l / 2) ≡ h * 2 ^ k + l / 2 =
      rw half (bit_or_shift k h (l / 2) (omega (arith, pow-suc 2 k))) in
    rw pow-suc (omega (arith, or_step (h * (2 ^ k * 2)) l, rest))

-- `l | (h << k)`, the other way round.
pub bit_or_low : (k h l : ℕ) → l < 2 ^ k → bit_or l (h * 2 ^ k) ≡ h * 2 ^ k + l
bit_or_low zero h zero lt = omega (arith, bit_or-bitwise 0 (h * 1))
bit_or_low zero h (suc l) lt = absurd (omega arith)
bit_or_low (suc k) h l lt =
    let half : h * (2 ^ k * 2) / 2 ≡ h * 2 ^ k = omega arith in
    let rest : bit_or (l / 2) (h * (2 ^ k * 2) / 2) ≡ h * 2 ^ k + l / 2 =
      rw half (bit_or_low k h (l / 2) (omega (arith, pow-suc 2 k))) in
    rw pow-suc (omega (arith, or_step l (h * (2 ^ k * 2)), rest))
