-- ===== src/Base/Bits.antt =====
-- Single bits of a word, and what `&`, `|` and `~` do to them.
use Prim.Native.Nat.{
  ℕ, zero, suc, ◌+◌, ◌*◌, ◌/◌, ◌%◌, ◌^◌, ◌≤◌, ◌<◌, min, max, digits, bitwise, bit_and, bit_or,
  bit_and-bitwise, bit_or-bitwise,
}
use mathlib.Core.Path.{◌≡◌, refl, sym}
use native.Mathlib.Nat.{pow-suc, div-div-eq-div-mul}
use mathlib.Core.Path.{◌∙◌}
use mathlib.Core.Logic.{inl, inr}
use native.Mathlib.Omega.{arith}
use allocator_bench.Base.Tests.{eq_or_ne}

-- `digits` is given a bound of the number of digits, and `bitwise` the first number for one. A
-- larger bound gives the same, so the lowest digit can be taken off.
module _ (z : ℕ → ℕ) (f : ℕ → ℕ → ℕ) where
  one_more : (n a b : ℕ) → a ≤ n → digits z f (suc n) a b ≡ digits z f n a b
  one_more n zero b le = elim n as (λ k. digits z f (suc k) 0 b ≡ digits z f k 0 b) [
    | zero ↦ refl
    | suc k ↦ refl
  ]
  one_more zero (suc a) b le = absurd (omega arith)
  one_more (suc n) (suc a) b le = rw (one_more n (suc a / 2) (b / 2) (omega arith)) refl

  any_bound : (n a b : ℕ) → a ≤ n → bitwise z f a b ≡ digits z f n a b
  any_bound zero a b le = let none_left : a ≡ 0 = omega arith in rw none_left refl
  any_bound (suc n) a b le = elim (eq_or_ne a (suc n)) [
    | inl e ↦ rw e refl
    | inr less ↦
        let shorter : a ≤ n = omega arith in any_bound n a b shorter ∙ sym (one_more n a b shorter)
  ]

  lowest_digit :
      ((b : ℕ) → z b ≡ z (b / 2) * 2 + f 0 (b % 2))
      → (a b : ℕ) → bitwise z f a b ≡ bitwise z f (a / 2) (b / 2) * 2 + f (a % 2) (b % 2)
  lowest_digit at_zero zero b = at_zero b
  lowest_digit at_zero (suc a) b = rw (any_bound a (suc a / 2) (b / 2) (omega arith)) refl

pub bit_or_step : (a b : ℕ) → bit_or a b ≡ bit_or (a / 2) (b / 2) * 2 + max (a % 2) (b % 2)
bit_or_step a b =
    rw (bit_or-bitwise a b, bit_or-bitwise (a / 2) (b / 2))
      (lowest_digit (λ y. y) max (λ y. omega arith) a b)

pub bit_and_step : (a b : ℕ) → bit_and a b ≡ bit_and (a / 2) (b / 2) * 2 + min (a % 2) (b % 2)
bit_and_step a b =
    rw (bit_and-bitwise a b, bit_and-bitwise (a / 2) (b / 2))
      (lowest_digit (λ y. 0) min (λ y. omega arith) a b)

-- Bit `i` of `a`, as 0 or 1.
unfoldable pub test_bit : ℕ → ℕ → ℕ
test_bit a i = a / 2 ^ i % 2

pub test_bit-lt : (a i : ℕ) → test_bit a i < 2
unfolding test_bit
test_bit-lt a i = omega arith

pub test_bit-zero : (a : ℕ) → test_bit a 0 ≡ a % 2
unfolding test_bit
test_bit-zero a = omega arith

pub div-pow-suc : (a i : ℕ) → a / 2 ^ suc i ≡ a / 2 / 2 ^ i
div-pow-suc a i =
    let e : 2 ^ suc i ≡ 2 * 2 ^ i = omega (arith, pow-suc 2 i) in
    rw e (sym (div-div-eq-div-mul a 2 (2 ^ i)))

pub test_bit-suc : (a i : ℕ) → test_bit a (suc i) ≡ test_bit (a / 2) i
unfolding test_bit
test_bit-suc a i = rw div-pow-suc

pub test_bit-bit_and : (i a b : ℕ) → test_bit (bit_and a b) i ≡ min (test_bit a i) (test_bit b i)
test_bit-bit_and zero a b =
    omega (arith, test_bit-zero a, test_bit-zero b, test_bit-zero (bit_and a b), bit_and_step a b)
test_bit-bit_and (suc i) a b =
    let half : bit_and a b / 2 ≡ bit_and (a / 2) (b / 2) = omega (arith, bit_and_step a b) in
    rw (test_bit-suc, test_bit-suc, test_bit-suc, half) (test_bit-bit_and i (a / 2) (b / 2))

pub test_bit-bit_or : (i a b : ℕ) → test_bit (bit_or a b) i ≡ max (test_bit a i) (test_bit b i)
test_bit-bit_or zero a b =
    omega (arith, test_bit-zero a, test_bit-zero b, test_bit-zero (bit_or a b), bit_or_step a b)
test_bit-bit_or (suc i) a b =
    let half : bit_or a b / 2 ≡ bit_or (a / 2) (b / 2) = omega (arith, bit_or_step a b) in
    rw (test_bit-suc, test_bit-suc, test_bit-suc, half) (test_bit-bit_or i (a / 2) (b / 2))

no_bits : (bound a : ℕ) → a < bound → bit_and a 0 ≡ 0
no_bits zero a lt = absurd (omega arith)
no_bits (suc bound) a lt = elim (eq_or_ne a 0) [
  | inl e ↦ rw e refl
  | inr positive ↦ omega (arith, bit_and_step a 0, no_bits bound (a / 2) (omega arith))
]

pub bit_and-zero : (a : ℕ) → bit_and a 0 ≡ 0
bit_and-zero a = no_bits (suc a) a (omega arith)

-- `a & (1 << i)` is bit `i` in its place.
pub bit_and-pow : (i a : ℕ) → bit_and a (2 ^ i) ≡ test_bit a i * 2 ^ i
bit_and-pow zero a = omega (arith, bit_and_step a 1, bit_and-zero (a / 2), test_bit-zero a)
bit_and-pow (suc i) a =
    let double : 2 ^ suc i ≡ 2 * 2 ^ i = omega (arith, pow-suc 2 i) in
    let half : 2 * 2 ^ i / 2 ≡ 2 ^ i = omega arith in
    let even : 2 * 2 ^ i % 2 ≡ 0 = omega arith in
    let step : bit_and a (2 * 2 ^ i) ≡ bit_and (a / 2) (2 ^ i) * 2 + min (a % 2) (2 * 2 ^ i % 2) =
      rw half at (bit_and_step a (2 * 2 ^ i)) in
    rw (test_bit-suc, double) (omega (arith, step, even, bit_and-pow i (a / 2)))
