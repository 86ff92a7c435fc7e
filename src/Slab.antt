-- ===== src/Slab.antt =====
-- The slab allocator of src/va_allocator_arenas.c: a reservation cut into blocks of one size, with
-- a bit for each block that is handed out. The assertion of `initialize_slab` that the reservation has
-- no strategy is not represented: its one caller passes a reservation that `calloc` has just made.
pub mod Counts
mod Examples
pub mod Valid
pub mod Free
use allocator_bench.Base.{
  ℕ, ◌+◌, ◌-◌, ◌*◌, ◌/◌, ◌^◌, Bool, true, false, Option, none, some, ◌||◌, ltb, leb, ◌==◌,
  if◌then◌else◌, Run, ok, stop,
}
use allocator_bench.Blocks.{u64}
use allocator_bench.Bitvector.{
  Bitvector, create, set_bit, clear_bit, is_any_bit_set, find_lowest_clear_bit_in_range,
}
use allocator_bench.Objects.{Reservation}

pub record SlabAllocator : Type 0 where
  pub block_size : ℕ
  pub blocks_per_slab : ℕ
  pub free_blocks : ℕ
  pub bitmap : Option Bitvector
  pub parent_reservation : Reservation

-- The end of the initialisation, from what `cubitvectorCreate` leaves in `bitmap`.
unfoldable pub with_bitmap :
    Reservation → (block_size blocks : ℕ) → Option Bitvector → Option SlabAllocator
with_bitmap r block_size blocks none = none
with_bitmap r block_size blocks (some bitmap) = some (record {
  block_size = block_size;
  blocks_per_slab = blocks;
  free_blocks = blocks;
  bitmap = some bitmap;
  parent_reservation = r;
})

-- The arena's `max_per_alloc_size` and `reservation_size` are arguments, and so is whether each of
-- the calls of `calloc` has memory. A block size of 0, by which the code would divide, is not meant.
unfoldable pub initialize_slab :
    (has_memory has_struct has_chunks : Bool)
    → Reservation
    → (max_per_alloc_size reservation_size : ℕ) → Option SlabAllocator
initialize_slab false has_struct has_chunks r max_per_alloc_size reservation_size = none
initialize_slab true has_struct has_chunks r max_per_alloc_size reservation_size =
    with_bitmap r max_per_alloc_size (reservation_size / max_per_alloc_size)
      (create has_struct has_chunks (reservation_size / max_per_alloc_size))

-- The end of an allocation, from the bit that the search finds.
unfoldable pub give_block : SlabAllocator → Option ℕ → ℕ × SlabAllocator
give_block sa none = (0, sa)
give_block sa (some bit) = (
  u64 (sa.parent_reservation.node_addr + u64 (sa.block_size * bit)),
  record sa { bitmap = (set_bit sa.bitmap bit).1; free_blocks = u64 (sa.free_blocks + 2 ^ 64 - 1) },
)

unfoldable pub allocate_from_slab : SlabAllocator → ℕ × SlabAllocator
allocate_from_slab sa =
    if sa.free_blocks == 0
    then (0, sa)
    else give_block sa
        (find_lowest_clear_bit_in_range sa.bitmap 0 (u64 (sa.blocks_per_slab + 2 ^ 64 - 1)))

-- The two assertions on the address come first.
unfoldable pub free_to_slab : ℕ → SlabAllocator → Run SlabAllocator
free_to_slab addr sa =
    let r : Reservation = sa.parent_reservation in
    if ltb addr r.addr || leb (u64 (r.addr + r.size)) addr
    then stop
    else ok (record sa {
      bitmap = (clear_bit sa.bitmap ((addr - r.addr) / sa.block_size)).1;
      free_blocks = u64 (sa.free_blocks + 1);
    })

-- The assertion that no block is in use; the rest of `deinitialize_slab` only frees.
unfoldable pub deinitialize_slab : SlabAllocator → Run {0} Unit
deinitialize_slab sa = if is_any_bit_set sa.bitmap then stop else ok tt
