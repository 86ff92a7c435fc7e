-- ===== src/Radix/Digits.antt =====
-- The bit tests of utils/radix.c as arithmetic: which half of a subtree's range a key lies in.
use native.Mathlib.Nat.{pow-suc, div-div-eq-div-mul, one-le-pow}
use allocator_bench.Base.{ℕ, suc, ◌+◌, ◌*◌, ◌/◌, ◌%◌, ◌^◌, ◌<◌, ◌≡◌, true, false, arith, ◌==◌}
use allocator_bench.Base.Bits.{test_bit, bit_and-pow}
use allocator_bench.Radix.{is_bit_set}

pub pow_pos : (b : ℕ) → 0 < 2 ^ b
pow_pos b = omega (arith, one-le-pow b 2)

pub div-pow_half : (k b : ℕ) → k / 2 ^ suc b ≡ k / 2 ^ b / 2
div-pow_half k b = rw (pow-suc 2 b, div-div-eq-div-mul k (2 ^ b) 2)

-- The digit at `b`, 0 or 1.
abbrev pub digit : ℕ → ℕ → ℕ
digit k b = k / 2 ^ b % 2

is_bit_set-digit : (k b : ℕ) → is_bit_set k b ≡ (digit k b == 1)
unfolding is_bit_set test_bit
is_bit_set-digit k b = ground (arith, bit_and-pow b k, pow_pos b)

pub prefix_right : (k b m : ℕ) → k / 2 ^ suc b ≡ m → is_bit_set k b ≡ true → k / 2 ^ b ≡ 2 * m + 1
prefix_right k b m h set = ground (arith, is_bit_set-digit k b, div-pow_half k b)

pub prefix_left : (k b m : ℕ) → k / 2 ^ suc b ≡ m → is_bit_set k b ≡ false → k / 2 ^ b ≡ 2 * m
prefix_left k b m h clear = ground (arith, is_bit_set-digit k b, div-pow_half k b)

pub lt_of_div-lt : (x y d : ℕ) → x / d < y / d → x < y
lt_of_div-lt x y d h = grind arith

pub div-eq-zero : (x d : ℕ) → x < d → x / d ≡ 0
div-eq-zero x d h = grind arith
