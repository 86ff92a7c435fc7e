-- ===== src/Default.antt =====
-- src/va_allocator_default.c: one reservation, a list of blocks, best fit.
-- `calloc` and `mmap` are outside the code: each call takes as arguments whether `calloc` has
-- memory, and the address of the reservation, or none where `mmap` fails.
mod Examples
pub mod Live
pub mod Session
pub mod Runs
pub mod Valid
use allocator_bench.Base.{
  ℕ, ◌+◌, ◌-◌, ◌*◌, ◌^◌, Bool, true, false, Option, none, some, List, [], ◌∷◌, ◌||◌, ltb, ◌==◌,
  if◌then◌else◌, Run, ok, stop, ◌>>=◌,
}
use allocator_bench.Radix
use allocator_bench.Blocks.{Block, Pool, Cursor, u64, locate, alloc_block, free_block}

-- 1ULL << 31, and twice that.
abbrev pub physical_memory_size : ℕ
physical_memory_size = 2 ^ 31

abbrev pub va_reservation_size : ℕ
va_reservation_size = 2 * physical_memory_size

-- `addr_list` and `size_tree` are the fields of `pool`.
pub record Allocator : Type 0 where
  pub pool : Pool
  pub total_va_size : ℕ
  pub used_va_size : ℕ

-- The end of `default_alloc`, from what `alloc_block` returns.
unfoldable pub account : Allocator → Option Block × Pool → ℕ × Allocator
account s (none, pool) = (0, record s { pool = pool })
account s (some best, pool) =
    (best.start_addr, record s { pool = pool; used_va_size = u64 (s.used_va_size + best.size) })

unfoldable pub alloc : Bool → ℕ → Allocator → Run (ℕ × Allocator)
alloc has_memory size s =
    if size == 0 || ltb s.total_va_size size
    then ok (0, s)
    else (alloc_block has_memory size s.pool >>= λ result. ok (account s result))

-- The block at an address is freed unless it is free; an address of no block changes nothing.
unfoldable pub free_at_cursor : Allocator → Option Cursor → Run Allocator
free_at_cursor s none = ok s
free_at_cursor s (some c) =
    if c.here.is_free
    then ok s
    else (free_block c s.pool.size_tree >>= λ pool.
        ok (record s { pool = pool; used_va_size = u64 (s.used_va_size + 2 ^ 64 - c.here.size) }))

unfoldable pub free : ℕ → Allocator → Run Allocator
free addr s = free_at_cursor s (locate addr [] s.pool.addr_list)

abbrev pub get_total_size : Allocator → ℕ
get_total_size s = s.total_va_size

abbrev pub get_used_size : Allocator → ℕ
get_used_size s = s.used_va_size

abbrev pub initial_block : ℕ → Block
initial_block va_base = record { start_addr = va_base; size = va_reservation_size; is_free = true }

-- The two calls of `calloc` (for the allocator and for its block) and the call of `mmap` between
-- them; `none` is NULL.
unfoldable pub init : Bool → Option ℕ → Bool → Run (Option Allocator)
init false va_base has_block = ok none
init true none has_block = ok none
init true (some va_base) false = ok none
init true (some va_base) true = Radix.init 63 >>= λ tree.
    Radix.insert tree va_base va_reservation_size >>= λ tree'. ok (
      some (record {
        pool = record { addr_list = initial_block va_base ∷ []; size_tree = tree' };
        total_va_size = va_reservation_size;
        used_va_size = 0;
      }))

-- What `default_destroy` gives back: the range for `munmap`, if it gets there. The loop frees every
-- block, and the code then reads the first one: a read of freed memory, which is undefined.
abbrev pub freed_blocks : List Block → List ℕ
freed_blocks [] = []
freed_blocks (b ∷ bs) = b.start_addr ∷ freed_blocks bs

unfoldable pub read_start : List ℕ → Block → Run ℕ
read_start freed b = if Radix.has_id b.start_addr freed then stop else ok b.start_addr

unfoldable pub unmap_after : List ℕ → ℕ → List Block → Run (Option (ℕ × ℕ))
unmap_after freed total [] = ok none
unmap_after freed total (b ∷ bs) = read_start freed b >>= λ addr. ok (some (addr, total))

unfoldable pub destroy : Allocator → Run (Option (ℕ × ℕ))
destroy s = unmap_after (freed_blocks s.pool.addr_list) s.total_va_size s.pool.addr_list
