-- ===== src/Slab/Free.antt =====
-- Freeing a block of a slab, and a new slab.
use native.Mathlib.Nat.{mul-add-div, mul-div-le, div-eq_of_lt, div-le_self, le-div_iff_mul-le}
use allocator_bench.Base.{
  ℕ, ◌+◌, ◌-◌, ◌*◌, ◌/◌, ◌^◌, ◌<◌, ◌≤◌, ◌≡◌, inl, inr, refl, sym, ap, ◌∙◌, true, false, some, ◌||◌,
  arith, ltb, leb, eq_or_ne, ok, Returns, Returns-imp,
}
use allocator_bench.Blocks.{u64}
use allocator_bench.Bitvector.{Bitvector, clear_bit}
use allocator_bench.Bitvector.Bit.{bit_of, Written, clear_bit-Writes, create-IsCleared}
use allocator_bench.Objects.{Reservation}
use allocator_bench.Slab.{
  SlabAllocator, with_bitmap, initialize_slab, allocate_from_slab, free_to_slab,
}
use allocator_bench.Slab.Counts.{sum_below, sum_below-one}
use allocator_bench.Slab.Valid.{
  IsSlab, Given, SlabOutcome, clear_at, count-Written, small_count, block_within,
  allocate_from_slab-SlabOutcome,
}

-- The number of the block that an address lies in.
block_of_address : (size bit x : ℕ) → size * bit ≤ x → x < size * bit + size → x / size ≡ bit
block_of_address size bit x from below =
    let whole : size * bit + (x - size * bit) ≡ x = omega arith in
    let rest : (x - size * bit) / size ≡ 0 = div-eq_of_lt (omega arith) in
    omega (
      arith,
      ap (λ y. y / size) whole,
      mul-add-div {m = size} (omega arith) bit (x - size * bit),
      rest,
    )

-- What the code does for an address in block `bit`, in use or not.
abbrev pub cleared : Bitvector → (bit : ℕ) → SlabAllocator → SlabAllocator
cleared b bit sa = record sa {
  bitmap = (clear_bit (some b) bit).1;
  free_blocks = sa.free_blocks + 1;
}

module _ {r : Reservation} {b : Bitvector} {sa : SlabAllocator} (h : IsSlab r b sa) (bit addr : ℕ)
    (lt : bit < sa.blocks_per_slab) (from : r.addr + sa.block_size * bit ≤ addr)
    (below : addr < r.addr + sa.block_size * bit + sa.block_size) where
  free_to_slab-ok : free_to_slab addr sa ≡ ok (cleared b bit sa)
  unfolding free_to_slab
  free_to_slab-ok =
      let start : sa.parent_reservation.addr ≡ r.addr = ap (λ p. p.addr) h.parent in
      let length : sa.parent_reservation.size ≡ r.size = ap (λ p. p.size) h.parent in
      let good : (ltb addr sa.parent_reservation.addr
            || leb (u64 (sa.parent_reservation.addr + sa.parent_reservation.size)) addr)
          ≡ false =
        ground (arith, start, length, block_within h bit lt, h.bounded) in
      let number : (addr - sa.parent_reservation.addr) / sa.block_size ≡ bit =
        block_of_address sa.block_size bit (addr - sa.parent_reservation.addr)
          (omega (arith, start)) (omega (arith, start)) in
      let bits : (clear_bit sa.bitmap ((addr - sa.parent_reservation.addr) / sa.block_size)).1
          ≡ (clear_bit (some b) bit).1 =
        ap (λ x. (clear_bit x ((addr - sa.parent_reservation.addr) / sa.block_size)).1) h.bitmap
        ∙ ap (λ k. (clear_bit (some b) k).1) number in
      let counter : u64 (sa.free_blocks + 1) ≡ sa.free_blocks + 1 = omega (arith, small_count h) in
      rw good (λ i. ok (record sa { bitmap = bits i; free_blocks = counter i }))

  -- Freeing any address in a block that is in use clears the bit of the block and no other, and
  -- adds 1 to the counter; the slab stays valid, so the counter is right.
  pub free_to_slab-IsSlab :
      bit_of b bit ≡ 1
      → Returns
          (λ sa'.
            (after : Bitvector) × Written b bit 0 after
            × IsSlab r after sa'
            × (sa'.free_blocks ≡ sa.free_blocks + 1))
          (free_to_slab addr sa)
  free_to_slab-IsSlab in_use =
      let w = clear_bit-Writes b h.vector bit in
      rw free_to_slab-ok (
        w.0,
        w.1.1,
        record {
          bitmap = ap (λ x. x.1) w.1.0;
          vector = w.1.1.valid;
          one_bit_each = w.1.1.same_size ∙ h.one_bit_each;
          counted = omega (arith, h.counted, count-Written h bit 0 w.0 lt w.1.1, in_use);
          positive = h.positive;
          parent = h.parent;
          room = h.room;
          not_null = h.not_null;
          bounded = h.bounded;
        },
        refl,
      )

  -- Freeing a block of a valid slab that is not in use leaves the bits as they are, and a counter
  -- that is one more than the number of clear bits.
  pub double_free-counter :
      bit_of b bit ≡ 0
      → Returns
          (λ sa'.
            (after : Bitvector) × (sa'.bitmap ≡ some after)
            × ((j : ℕ) → j < b.num_bits → bit_of after j ≡ bit_of b j)
            × (sa'.free_blocks ≡ sum_below sa'.blocks_per_slab (clear_at after) + 1))
          (free_to_slab addr sa)
  double_free-counter not_in_use =
      let w = clear_bit-Writes b h.vector bit in
      rw free_to_slab-ok (
        w.0,
        ap (λ x. x.1) w.1.0,
        λ j inside. elim (eq_or_ne j bit) [
          | inl e ↦
              rw e (ground (arith, w.1.1.bits bit (omega (arith, h.one_bit_each)), not_in_use))
          | inr ne ↦ ground (arith, w.1.1.bits j inside)
        ],
        omega (arith, h.counted, count-Written h bit 0 w.0 lt w.1.1, not_in_use),
      )

-- The same bits set and the same counter, in a valid slab.
abbrev pub SameSlab : Reservation → Bitvector → SlabAllocator → SlabAllocator → Type 0
SameSlab r b sa t =
    (b' : Bitvector) × IsSlab r b' t
    × (t.free_blocks ≡ sa.free_blocks)
    × ((j : ℕ) → j < b.num_bits → bit_of b' j ≡ bit_of b j)

-- A block that a valid slab hands out and that is freed at once, by its address, leaves the slab as
-- it was: valid, with the same bits set and the same counter.
pub free-allocate_from_slab :
    {r : Reservation} {b : Bitvector} {sa : SlabAllocator}
    → IsSlab r b sa
    → r.node_addr ≡ r.addr
    → (addr : ℕ) (sa' : SlabAllocator) → allocate_from_slab sa ≡ (addr, sa')
    → 0 < addr
    → Returns (SameSlab r b sa) (free_to_slab addr sa')
free-allocate_from_slab {r} {b} {sa} h registered addr sa' done pos =
    go (rw done at (allocate_from_slab-SlabOutcome h registered))
  where
    bits_back :
        (g : Given r b sa addr sa') (after : Bitvector)
        → Written g.after g.bit 0 after
        → (j : ℕ) → j < b.num_bits
        → bit_of after j ≡ bit_of b j
    bits_back g after written j inside = elim (eq_or_ne j g.bit) [
      | inl e ↦
          rw e
            (ground (arith, written.bits g.bit (omega (arith, g.written.same_size)), g.was_clear))
      | inr ne ↦
          ground
            (arith, written.bits j (omega (arith, g.written.same_size)), g.written.bits j inside)
    ]

    go : SlabOutcome r b sa (addr, sa') → Returns (SameSlab r b sa) (free_to_slab addr sa')
    go (inl (null, unchanged, full)) = absurd (omega (arith, null))
    go (inr g) =
        let now_set : bit_of g.after g.bit ≡ 1 =
          ground (arith, g.written.bits g.bit (omega (arith, g.has_bit, h.one_bit_each))) in
        Returns-imp _ (SameSlab r b sa) (free_to_slab addr sa')
          (free_to_slab-IsSlab g.valid g.bit addr (omega (arith, g.has_bit, g.same_shape.1))
            (rw g.same_shape.0 (omega (arith, g.at_addr)))
            (rw g.same_shape.0 (omega (arith, g.at_addr, h.positive))) now_set)
          (λ t (after, written, valid, counter). (
            after,
            valid,
            omega (arith, counter, g.counter),
            λ j inside. bits_back g after written j inside,
          ))

-- A new slab with room for at least one block, in user addresses, is valid with all blocks free,
-- if memory is had for it.
pub initialize_slab-IsSlab :
    (r : Reservation) (max_per_alloc_size : ℕ)
    → 0 < max_per_alloc_size
    → max_per_alloc_size ≤ r.size
    → 0 < r.addr
    → r.addr + r.size < 2 ^ 63
    → (b : Bitvector) × (sa : SlabAllocator) × (initialize_slab true true true r max_per_alloc_size
          r.size
        ≡ some sa)
      × IsSlab r b sa
      × ((i : ℕ) → bit_of b i ≡ 0)
unfolding initialize_slab with_bitmap
initialize_slab-IsSlab r size positive fits not_null bounded =
    let blocks : ℕ = r.size / size in
    let some_block : 0 < blocks =
      (le-div_iff_mul-le {x = 1} {y = r.size} positive).1 (omega arith) in
    let few : blocks ≤ r.size = div-le_self r.size size in
    let made = create-IsCleared blocks some_block (omega (arith, few)) in
    (
      made.0,
      record {
        block_size = size;
        blocks_per_slab = blocks;
        free_blocks = blocks;
        bitmap = some made.0;
        parent_reservation = r;
      },
      rw made.1.0 refl,
      record {
        bitmap = refl;
        vector = made.1.1.valid;
        one_bit_each = made.1.1.size;
        counted =
            sym (sum_below-one blocks (clear_at made.0) (λ t lt. omega (arith, made.1.1.clear t)));
        positive = positive;
        parent = refl;
        room = mul-div-le r.size size;
        not_null = not_null;
        bounded = bounded;
      },
      made.1.1.clear,
    )
