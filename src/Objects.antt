-- ===== src/Objects.antt =====
-- The object allocator of src/va_allocator_arenas.c: the blocks of one reservation of an arena.
-- Its code is that of the default allocator without the counters, and with assertions that an
-- address lies in the reservation. `deinitialize_obj_allocator` only frees and is left out.
-- The assertion of `initialize_obj_allocator` that the reservation has no strategy is not represented:
-- its one caller passes a reservation that `calloc` has just made.
mod Examples
pub mod Valid
pub mod Restore
use allocator_bench.Base.{
  ℕ, ◌+◌, Bool, true, false, Option, none, some, [], ◌∷◌, ◌||◌, ltb, leb, if◌then◌else◌, Run, ok,
  stop, ◌>>=◌,
}
use allocator_bench.Radix
use allocator_bench.Blocks.{Block, Pool, Cursor, u64, locate, alloc_block, free_block}

-- The fields of a reservation that its allocator reads. `node_addr` is `node.addr`, which is the
-- address once the reservation is in the address tracker.
pub record Reservation : Type 0 where
  pub size : ℕ
  pub addr : ℕ
  pub node_addr : ℕ

-- `addr_list` and `size_tree` are the fields of `pool`.
pub record ObjAllocator : Type 0 where
  pub pool : Pool
  pub parent_reservation : Reservation

abbrev pub first_block : Reservation → Block
first_block r = record { start_addr = r.addr; size = r.size; is_free = true }

-- The two calls of `calloc`: for the allocator and for its block. `none` is NULL.
unfoldable pub initialize_obj_allocator :
    (has_memory has_block : Bool) → Reservation → Run (Option ObjAllocator)
initialize_obj_allocator false has_block r = ok none
initialize_obj_allocator true has_block r = Radix.init 63 >>= λ tree.
    if has_block
    then (Radix.insert tree r.addr r.size >>= λ tree'. ok (
        some (record {
          pool = record { addr_list = first_block r ∷ []; size_tree = tree' };
          parent_reservation = r;
        })))
    else ok none

-- The end of an allocation, from what `alloc_block` returns.
unfoldable pub give : ObjAllocator → Option Block × Pool → ℕ × ObjAllocator
give oa (none, pool) = (0, record oa { pool = pool })
give oa (some best, pool) = (best.start_addr, record oa { pool = pool })

unfoldable pub allocate_from_obj_allocator : Bool → ℕ → ObjAllocator → Run (ℕ × ObjAllocator)
allocate_from_obj_allocator has_memory size oa =
    alloc_block has_memory size oa.pool >>= λ result. ok (give oa result)

unfoldable pub free_obj_at : ObjAllocator → Option Cursor → Run ObjAllocator
free_obj_at oa none = ok oa
free_obj_at oa (some c) =
    if c.here.is_free
    then ok oa
    else (free_block c oa.pool.size_tree >>= λ pool. ok (record oa { pool = pool }))

-- The two assertions on the address come first.
unfoldable pub free_to_obj_allocator : ℕ → ObjAllocator → Run ObjAllocator
free_to_obj_allocator addr oa =
    let r : Reservation = oa.parent_reservation in
    if ltb addr r.addr || leb (u64 (r.addr + r.size)) addr
    then stop
    else free_obj_at oa (locate addr [] oa.pool.addr_list)
