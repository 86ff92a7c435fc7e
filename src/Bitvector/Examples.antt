-- ===== src/Bitvector/Examples.antt =====
-- The bit operations run, and their theorems at a vector of 100 bits.
use allocator_bench.Base.{
  ℕ, ◌+◌, zero, suc, ◌<◌, ◌^◌, get_or, ◌≡◌, refl, true, false, some, [], ◌∷◌, arith, if◌then◌else◌,
  ◌&&◌, ◌==◌, ltb,
}
use allocator_bench.Bitvector.{
  Bitvector, create, set_bit, clear_bit, is_bit_set, chunk_bitmask, set_bits_in_range,
  are_all_bits_set_in_range, find_lowest_clear_bit_in_range, find_lowest_bit_in_range,
  find_lowest_loop, candidates, first_set, range_mask, write_range, all_chunks,
}
use allocator_bench.Bitvector.Search.{First, wanted, find_lowest_bit_in_range-First}
use allocator_bench.Bitvector.Bit.{
  IsValid, Writes, set_bit-Writes, clear_bit-Writes, is_bit_set-set_bit, is_bit_set-clear_bit,
  create-IsCleared, IsCleared,
}

-- 100 bits in two chunks, bits 0, 1 and 64 set.
abbrev two_chunks : Bitvector
two_chunks = record { num_bits = 100; chunks = 3 ∷ 1 ∷ [] }

two_words : (i : ℕ) → get_or two_chunks.chunks i 0 < 2 ^ 64
two_words zero = omega arith
two_words (suc zero) = omega arith
two_words (suc (suc i)) = omega arith

two_chunks-IsValid : IsValid two_chunks
two_chunks-IsValid = record {
  nonempty = omega arith;
  bounded = omega arith;
  num_chunks = refl;
  words = λ i. two_words i;
}

set_bit-Writes_example : Writes two_chunks 70 1 (set_bit (some two_chunks) 70)
set_bit-Writes_example = set_bit-Writes two_chunks two_chunks-IsValid 70

clear_bit-Writes_example : Writes two_chunks 64 0 (clear_bit (some two_chunks) 64)
clear_bit-Writes_example = clear_bit-Writes two_chunks two_chunks-IsValid 64

other_bit_after_set :
    is_bit_set (set_bit (some two_chunks) 70).1 64
    ≡ (if ltb 64 100 && (64 == 70) then true else is_bit_set (some two_chunks) 64)
other_bit_after_set = is_bit_set-set_bit two_chunks 70 64 two_chunks-IsValid

bit_after_clear :
    is_bit_set (clear_bit (some two_chunks) 64).1 64
    ≡ (if ltb 64 100 && (64 == 64) then false else is_bit_set (some two_chunks) 64)
bit_after_clear = is_bit_set-clear_bit two_chunks 64 64 two_chunks-IsValid

create-IsCleared_example : (b : Bitvector) × ((create true true 100 ≡ some b) × IsCleared 100 b)
create-IsCleared_example = create-IsCleared 100 (omega arith) (omega arith)

-- A run: bit 70 set reads back, and the lowest clear bit of 0 to 99 is 2.
set_test : is_bit_set (set_bit (some two_chunks) 70).1 70 ≡ true
unfolding set_bit is_bit_set chunk_bitmask
set_test = refl

lowest_test : find_lowest_clear_bit_in_range (some two_chunks) 0 99 ≡ some 2
unfolding find_lowest_clear_bit_in_range find_lowest_bit_in_range find_lowest_loop candidates
    first_set range_mask chunk_bitmask
lowest_test = refl

range_test : are_all_bits_set_in_range (set_bits_in_range (some two_chunks) 60 80) 60 80 ≡ true
unfolding are_all_bits_set_in_range set_bits_in_range range_mask write_range all_chunks
range_test = refl

find_lowest_bit_in_range-First_example :
    First (wanted true two_chunks) 0 (99 + 1) (find_lowest_bit_in_range true (some two_chunks) 0 99)
find_lowest_bit_in_range-First_example =
    find_lowest_bit_in_range-First true two_chunks 0 99 two_chunks-IsValid (omega arith)
      (omega arith)
