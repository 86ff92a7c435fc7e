-- ===== src/Bitvector/Words.antt =====
-- Single bits of the words that utils/bitvector.c builds.
use Prim.Native.Nat.{bit_and-bitwise}
use native.Mathlib.Nat.{pow-suc, pow-le-pow_right, one-le-pow}
use allocator_bench.Base.{
  ℕ, zero, suc, ◌+◌, ◌-◌, ◌/◌, ◌%◌, ◌^◌, ◌<◌, ◌≤◌, ◌≡◌, refl, not, arith, bit_and, bit_or, ◌==◌,
  if◌then◌else◌,
}
use allocator_bench.Base.Bits.{
  test_bit, test_bit-lt, test_bit-zero, test_bit-suc, test_bit-bit_and, test_bit-bit_or,
  bit_and_step, bit_or_step, bit_and-zero, bit_and-pow, div-pow-suc,
}
use allocator_bench.Bitvector.{not64, chunk_bitmask, num_chunks, round_up, u64}

-- `x & 63` is the remainder by 64.
bit_and_63 : (a : ℕ) → bit_and a 63 ≡ a % 64
bit_and_63 a = omega (
  arith,
  bit_and_step a 63,
  bit_and_step (a / 2) 31,
  bit_and_step (a / 2 / 2) 15,
  bit_and_step (a / 2 / 2 / 2) 7,
  bit_and_step (a / 2 / 2 / 2 / 2) 3,
  bit_and_step (a / 2 / 2 / 2 / 2 / 2) 1,
  bit_and-zero (a / 2 / 2 / 2 / 2 / 2 / 2),
)

pub chunk_bitmask_lem : (bit : ℕ) → chunk_bitmask bit ≡ 2 ^ (bit % 64)
unfolding chunk_bitmask
chunk_bitmask_lem bit = rw (bit_and_63 bit)

pub test_bit-of_zero : (j : ℕ) → test_bit 0 j ≡ 0
test_bit-of_zero zero = omega (arith, test_bit-zero 0)
test_bit-of_zero (suc j) = rw test_bit-suc (test_bit-of_zero j)

-- `1 << k` has bit `k` alone.
pub test_bit-pow : (k j : ℕ) → test_bit (2 ^ k) j ≡ (if j == k then 1 else 0)
test_bit-pow zero zero = omega (arith, test_bit-zero 1)
test_bit-pow zero (suc j) = rw test_bit-suc (ground (arith, test_bit-of_zero j))
test_bit-pow (suc k) zero = ground (arith, test_bit-zero (2 ^ suc k), pow-suc 2 k)
test_bit-pow (suc k) (suc j) =
    let half : 2 ^ suc k / 2 ≡ 2 ^ k = omega (arith, pow-suc 2 k) in
    rw (test_bit-suc, half) (ground (arith, test_bit-pow k j))

-- `~w` on n bits has the bits that `w` has not.
test_bit-not_width : (n j w : ℕ) → j < n → w < 2 ^ n → test_bit (2 ^ n - 1 - w) j ≡ 1 - test_bit w j
test_bit-not_width zero j w lt fits = absurd (omega arith)
test_bit-not_width (suc n) zero w lt fits =
    omega (arith, test_bit-zero (2 ^ suc n - 1 - w), test_bit-zero w, pow-suc 2 n)
test_bit-not_width (suc n) (suc j) w lt fits =
    let half : (2 ^ suc n - 1 - w) / 2 ≡ 2 ^ n - 1 - w / 2 = omega (arith, pow-suc 2 n) in
    rw (test_bit-suc, half, test_bit-suc)
      (test_bit-not_width n j (w / 2) (omega arith) (omega (arith, pow-suc 2 n)))

pub test_bit-not64 : (j w : ℕ) → j < 64 → w < 2 ^ 64 → test_bit (not64 w) j ≡ 1 - test_bit w j
test_bit-not64 j w lt fits = test_bit-not_width 64 j w lt fits

-- `w | (1 << k)` and `w & ~(1 << k)`.
pub test_bit-set :
    (w bit j : ℕ)
    → test_bit (bit_or w (chunk_bitmask bit)) j ≡ (if j == bit % 64 then 1 else test_bit w j)
test_bit-set w bit j =
    rw (chunk_bitmask_lem bit, test_bit-bit_or j w (2 ^ (bit % 64)))
      (ground (arith, test_bit-pow (bit % 64) j, test_bit-lt w j))

pub pow_lt : (k : ℕ) → k < 64 → 2 ^ k < 2 ^ 64
pow_lt k h =
    let le : 2 ^ suc k ≤ 2 ^ 64 = pow-le-pow_right {n = 2} (omega arith) {i = suc k} {j = 64} h in
    omega (arith, le, pow-suc 2 k, one-le-pow k 2)

pub test_bit-clear :
    (w bit j : ℕ)
    → j < 64
    → test_bit (bit_and w (not64 (chunk_bitmask bit))) j
      ≡ (if j == bit % 64 then 0 else test_bit w j)
test_bit-clear w bit j lt =
    rw
      (
        chunk_bitmask_lem bit,
        test_bit-bit_and j w (not64 (2 ^ (bit % 64))),
        test_bit-not64 j (2 ^ (bit % 64)) lt (pow_lt (bit % 64) (omega arith)),
      )
      (ground (arith, test_bit-pow (bit % 64) j, test_bit-lt w j))

-- The test `(w & (1 << k)) != 0`.
pub masked_test :
    (w bit : ℕ) → not (bit_and w (chunk_bitmask bit) == 0) ≡ (test_bit w (bit % 64) == 1)
masked_test w bit =
    rw (chunk_bitmask_lem bit)
      (ground (arith, bit_and-pow (bit % 64) w, test_bit-lt w (bit % 64), one-le-pow (bit % 64) 2))

-- A word stays a word.
pub bit_or-lt : (n a b : ℕ) → a < 2 ^ n → b < 2 ^ n → bit_or a b < 2 ^ n
bit_or-lt zero zero zero p q = omega (arith, bit_or_step 0 0)
bit_or-lt zero (suc a) b p q = absurd (omega arith)
bit_or-lt zero zero (suc b) p q = absurd (omega arith)
bit_or-lt (suc n) a b p q = omega (
  arith,
  bit_or_step a b,
  pow-suc 2 n,
  bit_or-lt n (a / 2) (b / 2) (omega (arith, pow-suc 2 n)) (omega (arith, pow-suc 2 n)),
)

pub bit_and-le : (n a b : ℕ) → a ≤ n → bit_and a b ≤ a
bit_and-le zero zero b p = simp bit_and-bitwise (omega arith)
bit_and-le zero (suc a) b p = absurd (omega arith)
bit_and-le (suc n) a b p =
    omega (arith, bit_and_step a b, bit_and-le n (a / 2) (b / 2) (omega arith))

-- `&` with n ones.
bit_and-ones : (n a : ℕ) → a < 2 ^ n → bit_and a (2 ^ n - 1) ≡ a
bit_and-ones zero a h = omega (arith, bit_and-zero a)
bit_and-ones (suc n) a h =
    let half : (2 ^ suc n - 1) / 2 ≡ 2 ^ n - 1 = omega (arith, pow-suc 2 n) in
    let rest : bit_and (a / 2) ((2 ^ suc n - 1) / 2) ≡ a / 2 =
      rw half (bit_and-ones n (a / 2) (omega (arith, pow-suc 2 n))) in
    omega (arith, bit_and_step a (2 ^ suc n - 1), pow-suc 2 n, one-le-pow n 2, rest)

-- `(x & y) >> k`.
bit_and-div_pow : (k a b : ℕ) → bit_and a b / 2 ^ k ≡ bit_and (a / 2 ^ k) (b / 2 ^ k)
bit_and-div_pow zero a b =
    let one : (c : ℕ) → c / 2 ^ 0 ≡ c = λ c. omega arith in
    rw (one (bit_and a b), one a, one b) refl
bit_and-div_pow (suc k) a b =
    let half : bit_and a b / 2 ≡ bit_and (a / 2) (b / 2) = omega (arith, bit_and_step a b) in
    rw (div-pow-suc (bit_and a b) k, div-pow-suc a k, div-pow-suc b k, half)
      (bit_and-div_pow k (a / 2) (b / 2))

-- Rounding up to whole chunks.
pub num_chunks_lem : (n : ℕ) → n ≤ 2 ^ 64 - 64 → num_chunks n ≡ (n + 63) / 64
unfolding num_chunks round_up
num_chunks_lem n h =
    let small : u64 (n + 63) ≡ n + 63 = omega arith in
    let chunks : bit_and (n + 63) (not64 63) / 64 ≡ bit_and ((n + 63) / 64) (2 ^ 58 - 1) =
      bit_and-div_pow 6 (n + 63) (not64 63) in
    let same : bit_and ((n + 63) / 64) (2 ^ 58 - 1) ≡ (n + 63) / 64 =
      bit_and-ones 58 ((n + 63) / 64) (omega arith) in
    rw small (omega (arith, chunks, same))
