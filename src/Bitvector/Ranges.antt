-- ===== src/Bitvector/Ranges.antt =====
-- The bits of the masks that the operations on ranges use.
use native.Mathlib.Nat.{pow-suc, one-le-pow}
use allocator_bench.Base.{
  ℕ, zero, suc, ◌+◌, ◌-◌, ◌/◌, ◌%◌, ◌^◌, ◌<◌, ◌≤◌, ◌≡◌, refl, ◌&&◌, arith, bit_and, ltb, leb, ◌==◌,
  if◌then◌else◌, if_cases,
}
use allocator_bench.Base.Bits.{test_bit, test_bit-zero, test_bit-suc, test_bit-bit_and, div-pow-suc}
use allocator_bench.Bitvector.{all_ones, not64, shl64, shr64, range_mask}
use allocator_bench.Bitvector.Words.{test_bit-of_zero, test_bit-not64, pow_lt}

-- The n lowest bits.
test_bit-ones : (n j : ℕ) → test_bit (2 ^ n - 1) j ≡ (if ltb j n then 1 else 0)
test_bit-ones zero j = ground (arith, test_bit-of_zero j)
test_bit-ones (suc n) zero =
    ground (arith, test_bit-zero (2 ^ suc n - 1), pow-suc 2 n, one-le-pow n 2)
test_bit-ones (suc n) (suc j) =
    let half : (2 ^ suc n - 1) / 2 ≡ 2 ^ n - 1 = omega (arith, pow-suc 2 n) in
    rw (test_bit-suc, half) (ground (arith, test_bit-ones n j))

-- `w >> m` moves bit m + j to bit j.
test_bit-shr : (m w j : ℕ) → test_bit (w / 2 ^ m) j ≡ test_bit w (m + j)
test_bit-shr zero w j =
    let same : w / 2 ^ 0 ≡ w = omega arith in let at : 0 + j ≡ j = omega arith in rw (same, at) refl
test_bit-shr (suc m) w j =
    let at : suc m + j ≡ suc (m + j) = omega arith in
    rw (div-pow-suc w m, at, test_bit-suc w (m + j)) (test_bit-shr m (w / 2) j)

-- `~0 << k` has the bits from k on.
test_bit-low_mask :
    (k j : ℕ) → k < 64 → j < 64 → test_bit (shl64 all_ones k) j ≡ (if leb k j then 1 else 0)
test_bit-low_mask k j p q =
    let word : shl64 all_ones k ≡ not64 (2 ^ k - 1) = omega (arith, pow_lt k p, one-le-pow k 2) in
    rw (word, test_bit-not64 j (2 ^ k - 1) q (omega (arith, pow_lt k p)))
      (ground (arith, test_bit-ones k j))

-- `~0 >> (63 - k)` has the bits up to k.
test_bit-high_mask :
    (k j : ℕ) → k < 64 → j < 64 → test_bit (shr64 all_ones (63 - k)) j ≡ (if leb j k then 1 else 0)
test_bit-high_mask k j p q =
    ground (arith, test_bit-shr (63 - k) all_ones j, test_bit-ones 64 (63 - k + j))

-- In the chunks of a range, the mask has the bits of the range.
pub test_bit-range_mask :
    (low_bit high_bit t : ℕ)
    → low_bit / 64 ≤ t / 64
    → t / 64 ≤ high_bit / 64
    → test_bit (range_mask low_bit high_bit (t / 64)) (t % 64)
      ≡ (if leb low_bit t && leb t high_bit then 1 else 0)
unfolding range_mask
test_bit-range_mask low_bit high_bit t from upto =
    let low : ℕ = if t / 64 == low_bit / 64 then shl64 all_ones (low_bit % 64) else all_ones in
    let low_bits : test_bit low (t % 64) ≡ (if leb low_bit t then 1 else 0) =
      if_cases (λ w. test_bit w (t % 64) ≡ (if leb low_bit t then 1 else 0))
        (t / 64 == low_bit / 64) (shl64 all_ones (low_bit % 64)) all_ones
        (λ e. ground (arith, test_bit-low_mask (low_bit % 64) (t % 64) (omega arith) (omega arith)))
        (λ e. ground (arith, test_bit-ones 64 (t % 64))) in
    if_cases (λ w. test_bit w (t % 64) ≡ (if leb low_bit t && leb t high_bit then 1 else 0))
      (t / 64 == high_bit / 64) (bit_and low (shr64 all_ones (63 - high_bit % 64))) low
      (λ e.
        rw (test_bit-bit_and (t % 64) low (shr64 all_ones (63 - high_bit % 64)), low_bits)
          (ground (arith, test_bit-high_mask (high_bit % 64) (t % 64) (omega arith) (omega arith))))
      (λ e. rw low_bits (ground arith))
