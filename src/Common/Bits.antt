-- ===== src/Common/Bits.antt =====
-- `bit_or` of a shifted number and one below the shift is their sum.
use Prim.Native.Nat.{
  ℕ, zero, suc, ◌+◌, ◌*◌, ◌/◌, ◌%◌, ◌^◌, ◌≤◌, ◌<◌, max, bit_or, digits, bit_or-bitwise,
}
use mathlib.Core.Path.{◌≡◌, refl, sym, ap, ◌∙◌}
use native.Mathlib.Nat.{pow-suc}
use mathlib.Core.Path.{refl}
use mathlib.Core.Bool.{Bool, true, ◌&&◌}
use rust_peergos_client.Common.Tests.{◌==◌, ==_iff}
use native.Mathlib.Omega.{arith}

-- The definition that the native operation stands for, by digits.
abbrev or_digits : ℕ → ℕ → ℕ → ℕ
or_digits n a b = digits (λ t. t) max n a b

or_digits_fuel : (n m a b : ℕ) → a ≤ n → a ≤ m → or_digits n a b ≡ or_digits m a b
or_digits_fuel n m zero b p q = or_digits-zero n b ∙ sym (or_digits-zero m b)
  where
    or_digits-zero : (k c : ℕ) → or_digits k 0 c ≡ c
    or_digits-zero zero c = refl
    or_digits-zero (suc k) c = refl
or_digits_fuel zero m (suc a) b p q = absurd (omega arith)
or_digits_fuel (suc n) zero (suc a) b p q = absurd (omega arith)
or_digits_fuel (suc n) (suc m) (suc a) b p q =
    omega (arith, or_digits_fuel n m (suc a / 2) (b / 2) (omega arith) (omega arith))

zero-bit_or : (b : ℕ) → bit_or 0 b ≡ b
zero-bit_or b = bit_or-bitwise 0 b

-- The law for the lowest digit.
pub bit_or_step : (a b : ℕ) → bit_or a b ≡ bit_or (a / 2) (b / 2) * 2 + max (a % 2) (b % 2)
bit_or_step zero b = omega (arith, zero-bit_or b, zero-bit_or (b / 2))
bit_or_step (suc a) b = omega (
  arith,
  bit_or-bitwise (suc a) b,
  bit_or-bitwise (suc a / 2) (b / 2),
  or_digits_fuel a (suc a / 2) (suc a / 2) (b / 2) (omega arith) (omega arith),
)

bit_or-zero_below : (n a : ℕ) → a ≤ n → bit_or a 0 ≡ a
bit_or-zero_below n zero h = refl
bit_or-zero_below zero (suc a) h = absurd (omega arith)
bit_or-zero_below (suc n) (suc a) h =
    omega (arith, bit_or_step (suc a) 0, bit_or-zero_below n (suc a / 2) (omega arith))

bit_or-zero : (a : ℕ) → bit_or a 0 ≡ a
bit_or-zero a = bit_or-zero_below a a (omega arith)

-- `hi << k | lo` with `lo` below `1 << k`.
pub bit_or_shifted : (k hi lo : ℕ) → lo < 2 ^ k → bit_or (hi * 2 ^ k) lo ≡ hi * 2 ^ k + lo
bit_or_shifted zero hi zero h = bit_or-zero (hi * 1) ∙ omega arith
bit_or_shifted zero hi (suc lo) h = absurd (omega arith)
bit_or_shifted (suc k) hi lo h =
    omega
      (arith, double, bit_or_step (hi * 2 ^ suc k) lo, halves, bit_or_shifted k hi (lo / 2) below)
  where
    double : hi * 2 ^ suc k ≡ 2 * (hi * 2 ^ k)
    double = omega (arith, ap (λ (t : ℕ). hi * t) (pow-suc 2 k))

    halves : bit_or (hi * 2 ^ suc k / 2) (lo / 2) ≡ bit_or (hi * 2 ^ k) (lo / 2)
    halves = ap (λ t. bit_or t (lo / 2)) (omega (arith, double))

    below : lo / 2 < 2 ^ k
    below = omega (arith, pow-suc 2 k)

bit_or_comm_below : (n a b : ℕ) → a ≤ n → bit_or a b ≡ bit_or b a
bit_or_comm_below n zero b h = zero-bit_or b ∙ sym (bit_or-zero b)
bit_or_comm_below zero (suc a) b h = absurd (omega arith)
bit_or_comm_below (suc n) (suc a) b h = omega (
  arith,
  bit_or_step (suc a) b,
  bit_or_step b (suc a),
  bit_or_comm_below n (suc a / 2) (b / 2) (omega arith),
)

pub bit_or_comm : (a b : ℕ) → bit_or a b ≡ bit_or b a
bit_or_comm a b = bit_or_comm_below a a b (omega arith)

-- `lo | hi << k` with `lo` below `1 << k`.
pub bit_or_above : (k hi lo : ℕ) → lo < 2 ^ k → bit_or lo (hi * 2 ^ k) ≡ lo + hi * 2 ^ k
bit_or_above k hi lo h = bit_or_comm lo (hi * 2 ^ k) ∙ bit_or_shifted k hi lo h ∙ omega arith

-- Over a small range, a test is made at every value.
unfoldable pub all_below : ℕ → (ℕ → Bool) → Bool
all_below zero test = true
all_below (suc n) test = test n && all_below n test

pub all_below-at :
    (n : ℕ) (test : ℕ → Bool) (x : ℕ) → all_below n test ≡ true → x < n → test x ≡ true
unfolding all_below
all_below-at zero test x h lt = absurd (omega arith)
all_below-at (suc n) test x h lt = ground (arith, all_below-at n test x)

top_bit_table : all_below 256 (λ b. bit_or b 0x80 == b % 128 + 128) ≡ true
unfolding all_below
top_bit_table = refl

-- Setting the top bit of a byte.
pub bit_or_top : (b : ℕ) → b < 256 → bit_or b 0x80 ≡ b % 128 + 128
bit_or_top b h = (==_iff _ _).0 (all_below-at 256 _ b top_bit_table h)
