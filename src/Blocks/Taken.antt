-- ===== src/Blocks/Taken.antt =====
-- What an allocation from the list of blocks comes to, and the invariant after its end.
use allocator_bench.Base.{
  ℕ, ◌+◌, ◌<◌, ◌≤◌, ◌≡◌, Bool, true, false, Option, none, some, List, [], ◌∷◌, ◌⊎◌, arith, ◌==◌,
  if◌then◌else◌,
}
use allocator_bench.Radix.{RadixTree}
use allocator_bench.Radix.Spec.{IsValid, occurs}
use allocator_bench.Blocks.{Block, Pool, Cursor, set_size, set_free, rejoin}
use allocator_bench.Blocks.Spec.{
  Tiles, TilesBack, Apart, total, free_at, IsPool, IsCursor, total-below, total-rejoin,
  Tiles-rejoin, Apart-rejoin, Apart-weaken,
}
use allocator_bench.Blocks.Free.{OfUsed, total_at}
use allocator_bench.Blocks.Walk.{FreeSizes, total-back}

-- What an allocation of `size` bytes from `pool` comes to. Without a result nothing has changed,
-- and if memory was not what lacked, no free block is large enough. A result is a used block of
-- that size, it is the only new used block, and it was cut from the start of the least free block
-- that is large enough.
abbrev pub Allocated : ℕ → ℕ → Bool → ℕ → Pool → Option Block × Pool → Type 0
Allocated base limit has_memory size pool (none, pool') =
    IsPool base limit pool'
    × (pool' ≡ pool)
    × (has_memory ≡ true → FreeSizes (λ k. k < size) pool.addr_list)
Allocated base limit has_memory size pool (some b, pool') =
    IsPool base limit pool'
    × (b.size ≡ size)
    × (b.is_free ≡ false)
    × ((base ≤ b.start_addr) × (b.start_addr + size ≤ limit))
    × ((f : Block → ℕ) → OfUsed f → total f pool'.addr_list ≡ total f pool.addr_list + f b)
    × ((k : ℕ) × (0 < total (free_at k b.start_addr) pool.addr_list)
        × (size ≤ k)
        × FreeSizes (λ n. (n < size) ⊎ (k ≤ n)) pool.addr_list)

pub TilesBack-le : (a m : ℕ) (bs : List Block) → TilesBack a m bs → a ≤ m
TilesBack-le a m [] t = omega arith
TilesBack-le a m (b ∷ bs) t = omega (arith, TilesBack-le a b.start_addr bs t.2)

-- The node that the search returns stands in a free block of its key's size.
module _ {base limit : ℕ} {pool : Pool} {c : Cursor} (key addr : ℕ) (h : IsPool base limit pool)
    (at : IsCursor base limit addr pool.addr_list c) where
  pub free_at_here : (k : ℕ) → total (free_at k addr) pool.addr_list ≡ free_at k addr c.here
  free_at_here k = omega (
    arith,
    total_at h at (free_at k addr),
    total-back k addr base addr c.before at.back,
    total-below k addr (addr + c.here.size) limit c.after at.ahead,
    at.pos,
  )

  pub is_best :
      0 < occurs key addr pool.size_tree.root → (c.here.is_free ≡ true) × (c.here.size ≡ key)
  is_best pos = split (omega (arith, free_at_here key, h.nodes key addr))
    where
      split : 0 < free_at key addr c.here → (c.here.is_free ≡ true) × (c.here.size ≡ key)
      split p = ground arith

  -- The invariant after the best fit is marked as used, from what its side of the list becomes.
  module _ (free : c.here.is_free ≡ true) (size : ℕ) (pos : 0 < size) (rest : List Block)
      (tree : RadixTree) where
    pub taken_IsPool :
        Tiles (addr + size) limit rest
        → Apart false rest
        → IsValid tree
        → tree.key_bits ≡ 63
        → ((k i : ℕ)
            → occurs k i tree.root
              ≡ (if i == addr then 0 else total (free_at k i) c.before + total (free_at k i) rest))
        → IsPool base limit (record {
          addr_list = rejoin c.before (set_free false (set_size size c.here) ∷ rest);
          size_tree = tree;
        })
    taken_IsPool ahead apart valid bits nodes = record {
      tiles =
          Tiles-rejoin base addr limit c.before (set_free false (set_size size c.here) ∷ rest)
            at.back (at.at_addr, pos, ahead);
      apart =
          Apart-rejoin c.before (set_free false (set_size size c.here)) rest
            (Apart-weaken c.here.is_free c.before at.apart_back) apart;
      valid = valid;
      bits = bits;
      nodes = λ k i. ground (
        arith,
        nodes k i,
        total-rejoin (free_at k i) c.before (set_free false (set_size size c.here) ∷ rest),
        total-back k i base addr c.before at.back,
        total-below k i (addr + size) limit rest ahead,
      );
      bounded = h.bounded;
    }
