-- ===== src/Slab/Examples.antt =====
-- Runs of the slab allocator, and its theorems at a slab of 80 blocks of 512 bytes.
use allocator_bench.Base.{
  ℕ, zero, suc, ◌+◌, ◌<◌, ◌^◌, ◌≡◌, refl, true, some, [], ◌∷◌, arith, Returns, get_or,
}
use allocator_bench.Base.Bits.{test_bit}
use allocator_bench.Bitvector.{
  Bitvector, chunk_bitmask, set_bit, find_lowest_bit_in_range, find_lowest_loop, candidates,
  first_set, range_mask,
}
use allocator_bench.Bitvector.Bit.{Written, bit_of}
use allocator_bench.Objects.{Reservation}
use allocator_bench.Slab.{
  SlabAllocator, give_block, initialize_slab, allocate_from_slab, free_to_slab,
}
use allocator_bench.Slab.Counts.{sum_below}
use allocator_bench.Slab.Valid.{IsSlab, SlabOutcome, clear_at, allocate_from_slab-SlabOutcome}
use allocator_bench.Slab.Free.{
  SameSlab, free_to_slab-IsSlab, double_free-counter, free-allocate_from_slab,
  initialize_slab-IsSlab,
}

abbrev place : Reservation
place = record { size = 40960; addr = 4096; node_addr = 4096 }

-- Blocks 0 and 1 are in use.
abbrev bits : Bitvector
bits = record { num_bits = 80; chunks = 3 ∷ 0 ∷ [] }

abbrev slab : SlabAllocator
slab = record {
  block_size = 512;
  blocks_per_slab = 80;
  free_blocks = 78;
  bitmap = some bits;
  parent_reservation = place;
}

slab_words : (i : ℕ) → get_or bits.chunks i 0 < 2 ^ 64
slab_words zero = omega arith
slab_words (suc zero) = omega arith
slab_words (suc (suc i)) = omega arith

slab-IsSlab : IsSlab place bits slab
unfolding test_bit
slab-IsSlab = record {
  bitmap = refl;
  vector = record {
    nonempty = omega arith;
    bounded = omega arith;
    num_chunks = refl;
    words = λ i. slab_words i;
  };
  one_bit_each = refl;
  counted = refl;
  positive = omega arith;
  parent = refl;
  room = omega arith;
  not_null = omega arith;
  bounded = omega arith;
}

allocate_from_slab-SlabOutcome_example : SlabOutcome place bits slab (allocate_from_slab slab)
allocate_from_slab-SlabOutcome_example = allocate_from_slab-SlabOutcome slab-IsSlab refl

bit_one_set : bit_of bits 1 ≡ 1
unfolding test_bit
bit_one_set = refl

bit_two_clear : bit_of bits 2 ≡ 0
unfolding test_bit
bit_two_clear = refl

free_to_slab-IsSlab_example :
    Returns
      (λ sa'.
        (after : Bitvector) × Written bits 1 0 after
        × IsSlab place after sa'
        × (sa'.free_blocks ≡ 78 + 1))
      (free_to_slab 4608 slab)
free_to_slab-IsSlab_example =
    free_to_slab-IsSlab slab-IsSlab 1 4608 (omega arith) (omega arith) (omega arith) bit_one_set

double_free-counter_example :
    Returns
      (λ sa'.
        (after : Bitvector) × (sa'.bitmap ≡ some after)
        × ((j : ℕ) → j < 80 → bit_of after j ≡ bit_of bits j)
        × (sa'.free_blocks ≡ sum_below sa'.blocks_per_slab (clear_at after) + 1))
      (free_to_slab 5120 slab)
double_free-counter_example =
    double_free-counter slab-IsSlab 2 5120 (omega arith) (omega arith) (omega arith) bit_two_clear

initialize_slab-IsSlab_example :
    (b : Bitvector) × (sa : SlabAllocator) × (initialize_slab true true true place 512 40960
      ≡ some sa)
    × IsSlab place b sa
    × ((i : ℕ) → bit_of b i ≡ 0)
initialize_slab-IsSlab_example =
    initialize_slab-IsSlab place 512 (omega arith) (omega arith) (omega arith) (omega arith)

-- Block 2 is handed out.
abbrev slab_after : SlabAllocator
slab_after = record slab {
  free_blocks = 77;
  bitmap = some (record { num_bits = 80; chunks = 7 ∷ 0 ∷ [] });
}

slab_runs : allocate_from_slab slab ≡ (5120, slab_after)
unfolding allocate_from_slab give_block find_lowest_bit_in_range find_lowest_loop candidates
    first_set range_mask chunk_bitmask set_bit
slab_runs = refl

free-allocate_from_slab_example : Returns (SameSlab place bits slab) (free_to_slab 5120 slab_after)
free-allocate_from_slab_example =
    free-allocate_from_slab slab-IsSlab refl 5120 slab_after slab_runs (omega arith)
