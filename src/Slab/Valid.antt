-- ===== src/Slab/Valid.antt =====
-- The invariant of a slab, and what each of its operations comes to.
use native.Mathlib.Nat.{mul-le-mul_left, mul-suc}
use allocator_bench.Base.{
  ℕ, suc, ◌+◌, ◌-◌, ◌*◌, ◌/◌, ◌%◌, ◌^◌, ◌<◌, ◌≤◌, ◌≡◌, ◌≢◌, ◌⊎◌, inl, inr, refl, ap, ◌∙◌, true,
  Option, none, some, arith, ◌==◌, if_cases,
}
use allocator_bench.Base.Bits.{test_bit-lt}
use allocator_bench.Blocks.{u64}
use allocator_bench.Bitvector.{Bitvector, chunk_at, find_lowest_clear_bit_in_range}
use allocator_bench.Bitvector.Bit.{
  bit_of, Written, Writes, set_bit-Writes, clear_bit-Writes, create-IsCleared, IsCleared,
}
use allocator_bench.Bitvector.Bit
use allocator_bench.Bitvector.Search.{First, wanted, find_lowest_bit_in_range-First}
use allocator_bench.Objects.{Reservation}
use allocator_bench.Slab.{SlabAllocator, give_block, allocate_from_slab}
use allocator_bench.Slab.Counts.{
  sum_below, sum_below-change, sum_below-zero, zero_of_sum_below, sum_below-le,
}

-- 1 for a clear bit.
abbrev pub clear_at : Bitvector → ℕ → ℕ
clear_at b t = 1 - bit_of b t

-- The bits are those of `b`, one for each block; `free_blocks` counts the clear ones; the blocks fit
-- the reservation `r`, which is the slab's and lies in user addresses.
pub record IsSlab (r : Reservation) (b : Bitvector) (sa : SlabAllocator) : Type 0 where
  pub bitmap : sa.bitmap ≡ some b
  pub vector : Bit.IsValid b
  pub one_bit_each : b.num_bits ≡ sa.blocks_per_slab
  pub counted : sa.free_blocks ≡ sum_below sa.blocks_per_slab (clear_at b)
  pub positive : 0 < sa.block_size
  pub parent : sa.parent_reservation ≡ r
  pub room : sa.block_size * sa.blocks_per_slab ≤ r.size
  pub not_null : 0 < r.addr
  pub bounded : r.addr + r.size < 2 ^ 63

-- A block was handed out: bit `bit`, the lowest clear one, is now set, and the block lies in the
-- reservation.
pub record Given (r : Reservation) (b : Bitvector) (sa : SlabAllocator) (addr : ℕ)
    (sa' : SlabAllocator) : Type 0 where
  pub bit : ℕ
  pub after : Bitvector
  pub has_bit : bit < sa.blocks_per_slab
  pub was_clear : bit_of b bit ≡ 0
  pub lowest : (t : ℕ) → t < bit → bit_of b t ≡ 1
  pub at_addr : addr ≡ r.addr + sa.block_size * bit
  pub within : (0 < addr) × (addr + sa.block_size ≤ r.addr + r.size)
  pub written : Written b bit 1 after
  pub same_shape : (sa'.block_size ≡ sa.block_size) × (sa'.blocks_per_slab ≡ sa.blocks_per_slab)
  pub counter : sa'.free_blocks + 1 ≡ sa.free_blocks
  pub valid : IsSlab r after sa'

abbrev pub SlabOutcome : Reservation → Bitvector → SlabAllocator → ℕ × SlabAllocator → Type 0
SlabOutcome r b sa (addr, sa') =
    ((addr ≡ 0) × (sa' ≡ sa) × ((t : ℕ) → t < sa.blocks_per_slab → bit_of b t ≡ 1))
    ⊎ Given r b sa addr sa'

bit_of-lt : (b : Bitvector) (t : ℕ) → bit_of b t < 2
bit_of-lt b t = test_bit-lt (chunk_at b.chunks (t / 64)) (t % 64)

module _ {r : Reservation} {b : Bitvector} {sa : SlabAllocator} (h : IsSlab r b sa) where
  -- The end of a block lies in the reservation.
  pub block_within :
      (bit : ℕ) → bit < sa.blocks_per_slab → sa.block_size * bit + sa.block_size ≤ r.size
  block_within bit lt = omega (
    arith,
    mul-suc sa.block_size bit,
    mul-le-mul_left {m = suc bit} {n = sa.blocks_per_slab} sa.block_size lt,
    h.room,
  )

  -- A write of one bit changes the count by that bit.
  pub count-Written :
      (bit v : ℕ) (after : Bitvector)
      → bit < sa.blocks_per_slab
      → Written b bit v after
      → sum_below sa.blocks_per_slab (clear_at after) + (1 - bit_of b bit)
        ≡ sum_below sa.blocks_per_slab (clear_at b) + (1 - v)
  count-Written bit v after lt w =
      let hit : bit_of after bit ≡ v = ground (arith, w.bits bit (omega (arith, h.one_bit_each))) in
      omega (
        arith,
        sum_below-change sa.blocks_per_slab bit (clear_at after) (clear_at b) lt
            (λ t below other. ground (arith, w.bits t (omega (arith, h.one_bit_each)))),
        hit,
      )

  pub small_count : sa.free_blocks ≤ 2 ^ 64 - 64
  small_count = omega (
    arith,
    h.counted,
    h.vector.bounded,
    h.one_bit_each,
    sum_below-le sa.blocks_per_slab (clear_at b) (λ t. omega arith),
  )

  give_block-Given :
      (bit : ℕ)
      → r.node_addr ≡ r.addr
      → bit < sa.blocks_per_slab
      → bit_of b bit ≡ 0
      → ((t : ℕ) → t < bit → bit_of b t ≡ 1)
      → Given r b sa (give_block sa (some bit)).0 (give_block sa (some bit)).1
  unfolding give_block
  give_block-Given bit registered lt clear lowest =
      let w = set_bit-Writes b h.vector bit in
      let grown = count-Written bit 1 w.0 lt w.1.1 in
      record {
        bit = bit;
        after = w.0;
        has_bit = lt;
        was_clear = clear;
        lowest = lowest;
        at_addr =
            omega
              (arith, registered, ap (λ p. p.node_addr) h.parent, block_within bit lt, h.bounded);
        within = (
          omega (
            arith,
            registered,
            ap (λ p. p.node_addr) h.parent,
            block_within bit lt,
            h.bounded,
            h.not_null,
          ),
          omega (arith, registered, ap (λ p. p.node_addr) h.parent, block_within bit lt, h.bounded),
        );
        written = w.1.1;
        same_shape = (refl, refl);
        counter = omega (arith, h.counted, grown, clear, small_count);
        valid = record {
          bitmap = rw h.bitmap (ap (λ x. x.1) w.1.0);
          vector = w.1.1.valid;
          one_bit_each = w.1.1.same_size ∙ h.one_bit_each;
          counted = omega (arith, h.counted, grown, clear, small_count);
          positive = h.positive;
          parent = h.parent;
          room = h.room;
          not_null = h.not_null;
          bounded = h.bounded;
        };
      }

  found-SlabOutcome :
      (found : Option ℕ)
      → r.node_addr ≡ r.addr
      → sa.free_blocks ≢ 0
      → First (wanted true b) 0 sa.blocks_per_slab found
      → SlabOutcome r b sa (give_block sa found)
  found-SlabOutcome none registered some_free f = absurd (
      some_free
        (h.counted ∙ sum_below-zero sa.blocks_per_slab (clear_at b) (λ t lt. f t (omega arith) lt)))
  found-SlabOutcome (some bit) registered some_free (from, lt, is_one, least) = inr (
      give_block-Given bit registered lt (omega arith)
        (λ t below. omega (arith, least t (omega arith) below, bit_of-lt b t)))

  -- Allocation from a valid slab whose reservation is in the tracker: if every block is in use it
  -- returns 0 and changes nothing; else it hands out the lowest free block, which lies in the
  -- reservation, and sets its bit and no other; the slab stays valid, so the counter is right.
  pub allocate_from_slab-SlabOutcome :
      r.node_addr ≡ r.addr → SlabOutcome r b sa (allocate_from_slab sa)
  unfolding allocate_from_slab
  allocate_from_slab-SlabOutcome registered =
      if_cases (SlabOutcome r b sa) (sa.free_blocks == 0) (0, sa)
        (give_block sa
          (find_lowest_clear_bit_in_range sa.bitmap 0 (u64 (sa.blocks_per_slab + 2 ^ 64 - 1))))
        (λ full. inl (
          refl,
          refl,
          λ t lt. omega (
            arith,
            zero_of_sum_below sa.blocks_per_slab (clear_at b) (ground (arith, h.counted)) t lt,
            bit_of-lt b t,
          ),
        ))
        (λ some_free.
          let last : u64 (sa.blocks_per_slab + 2 ^ 64 - 1) ≡ b.num_bits - 1 =
            omega (arith, h.one_bit_each, h.vector.bounded, h.vector.nonempty) in
          let bound : b.num_bits - 1 + 1 ≡ sa.blocks_per_slab =
            omega (arith, h.one_bit_each, h.vector.nonempty) in
          let search : find_lowest_clear_bit_in_range sa.bitmap 0
                (u64 (sa.blocks_per_slab + 2 ^ 64 - 1))
              ≡ find_lowest_clear_bit_in_range (some b) 0 (b.num_bits - 1) =
            ap (λ x. find_lowest_clear_bit_in_range x 0 (u64 (sa.blocks_per_slab + 2 ^ 64 - 1)))
              h.bitmap
            ∙ ap (find_lowest_clear_bit_in_range (some b) 0) last in
          rw search (
            found-SlabOutcome (find_lowest_clear_bit_in_range (some b) 0 (b.num_bits - 1))
              registered (ground arith)
              (rw bound at (
                find_lowest_bit_in_range-First true b 0 (b.num_bits - 1) h.vector (omega arith)
                  (omega (arith, h.vector.nonempty))))))
