-- ===== src/Blocks.antt =====
-- The address-ordered list of blocks and the size tree, as src/va_allocator_default.c works on
-- them; src/va_allocator_arenas.c has the same code once more for its object allocator.
-- A block is named by its start address, which is never written after the block is made, and its
-- `radix_node` by the same number. The doubly linked list is a list; a pointer to one of its
-- blocks is a `Cursor`, whose `before` (nearest first) and `after` are what `addr_prev` and
-- `addr_next` lead to.
pub mod Alloc
pub mod Taken
pub mod Split
pub mod Canonical
pub mod Free
pub mod Spec
pub mod Walk
use allocator_bench.Base.{
  ℕ, ◌+◌, ◌-◌, ◌%◌, ◌^◌, Bool, true, false, Option, none, some, List, [], ◌∷◌, ltb, ◌==◌,
  if◌then◌else◌, Run, ok, stop, ◌>>=◌,
}
use allocator_bench.Radix
use allocator_bench.Radix.{RadixTree, Ring}

pub record Block : Type 0 where
  pub start_addr : ℕ
  pub size : ℕ
  pub is_free : Bool

-- The two fields of an allocator that the code below works on.
pub record Pool : Type 0 where
  pub addr_list : List Block
  pub size_tree : RadixTree

pub record Cursor : Type 0 where
  pub before : List Block
  pub here : Block
  pub after : List Block

-- uint64_t
abbrev pub u64 : ℕ → ℕ
u64 n = n % 2 ^ 64

unfoldable pub insert_addr_list : Block → List Block → List Block
insert_addr_list block [] = block ∷ []
insert_addr_list block (current ∷ next) =
    if ltb current.start_addr block.start_addr
    then current ∷ insert_addr_list block next
    else block ∷ current ∷ next

-- The list that a cursor stands in: `before` turned round, and then `rest`.
unfoldable pub rejoin : List Block → List Block → List Block
rejoin [] rest = rest
rejoin (b ∷ before) rest = rejoin before (b ∷ rest)

-- The walk to the block with a start address, from a place with `before` behind it.
unfoldable pub locate : ℕ → List Block → List Block → Option Cursor
locate addr before [] = none
locate addr before (block ∷ next) =
    if block.start_addr == addr
    then some (record { before = before; here = block; after = next })
    else locate addr (block ∷ before) next

-- A write through the pointer to the block that starts at `addr`.
unfoldable pub update : ℕ → (Block → Block) → List Block → List Block
update addr write [] = []
update addr write (b ∷ bs) = if b.start_addr == addr then write b ∷ bs else b ∷ update addr write bs

abbrev pub set_size : ℕ → Block → Block
set_size n b = record b { size = n }

abbrev pub set_free : Bool → Block → Block
set_free f b = record b { is_free = f }

-- A pool once the best fit is marked as used, with the size tree that is left.
abbrev pub taken : Block → Pool → RadixTree → Pool
taken best pool tree = record {
  addr_list = update best.start_addr (set_free false) pool.addr_list;
  size_tree = tree;
}

-- The end of an allocation: the best fit is marked as used and its node leaves the size tree.
unfoldable pub take_block : Block → Pool → Run (Block × Pool)
take_block best pool = Radix.remove pool.size_tree best.start_addr >>= λ tree.
    ok (set_free false best, taken best pool tree)

-- The block that is split off behind the first `size` bytes of the best fit.
abbrev pub new_block : Block → ℕ → Block
new_block best size = record {
  start_addr = u64 (best.start_addr + size);
  size = best.size - size;
  is_free = true;
}

-- The best fit is cut to `size`, and the rest of it becomes a block of its own.
unfoldable pub split_block : Block → ℕ → Pool → Run Pool
split_block best size pool =
    let rest : Block = new_block best size in
    let shorter = update best.start_addr (set_size size) pool.addr_list in
    Radix.insert pool.size_tree rest.start_addr rest.size >>= λ tree.
    ok (record { addr_list = insert_addr_list rest shorter; size_tree = tree })

-- The best fit once it is found. `has_memory` says whether `calloc` has memory for a new block.
unfoldable pub use_block : Bool → ℕ → Pool → Option Cursor → Run (Option Block × Pool)
use_block has_memory size pool none = stop
use_block has_memory size pool (some c) =
    if ltb size c.here.size
    then (if has_memory
        then (split_block c.here size pool >>= λ pool'.
            take_block (set_size size c.here) pool' >>= λ (best, pool''). ok (some best, pool''))
        else ok (none, pool))
    else (take_block c.here pool >>= λ (best, pool'). ok (some best, pool'))

-- From the call of `radixTreeFindGEQ` on. The result is the best fit as it is left, or `none`
-- where the code returns 0. The node found stands in a block (`container_of`): `use_block` is
-- given the block that starts at the node's name.
unfoldable pub alloc_block : Bool → ℕ → Pool → Run (Option Block × Pool)
alloc_block has_memory size pool = Radix.find_geq pool.size_tree size >>= λ found. elim found [
  | none ↦ ok (none, pool)
  | some ring ↦ use_block has_memory size pool (locate ring.first [] pool.addr_list)
]

-- The block to be freed, with the list on one side of it and the size tree.
abbrev pub Merge : Type 0
Merge = List Block × Block × RadixTree

-- A free predecessor takes the block in and becomes the block to be freed. The list that is
-- returned is what stands before it: `remove_addr_list` has dropped the block between.
unfoldable pub merge_prev : List Block → Block → RadixTree → Run Merge
merge_prev [] block tree = ok ([], block, tree)
merge_prev (prev ∷ before) block tree =
    if block.start_addr == u64 (prev.start_addr + prev.size)
    then (if prev.is_free
        then (Radix.remove tree prev.start_addr >>= λ tree'.
            ok (before, set_size (u64 (prev.size + block.size)) prev, tree'))
        else ok (prev ∷ before, block, tree))
    else stop

-- A free successor is taken in.
unfoldable pub merge_next : List Block → Block → RadixTree → Run Merge
merge_next [] block tree = ok ([], block, tree)
merge_next (next ∷ after) block tree =
    if u64 (block.start_addr + block.size) == next.start_addr
    then (if next.is_free
        then (Radix.remove tree next.start_addr >>= λ tree'.
            ok (after, set_size (u64 (block.size + next.size)) block, tree'))
        else ok (next ∷ after, block, tree))
    else stop

-- The freeing of the block at a cursor: it is marked, merged with its free neighbours and put
-- into the size tree.
unfoldable pub free_block : Cursor → RadixTree → Run Pool
free_block c tree = merge_prev c.before (set_free true c.here) tree >>= λ (before, block, tree').
    merge_next c.after block tree' >>= λ (after, block', tree'').
    Radix.insert tree'' block'.start_addr block'.size >>= λ tree'''.
    ok (record { addr_list = rejoin before (block' ∷ after); size_tree = tree''' })
