-- ===== src/Blocks/Alloc.antt =====
-- Allocating a block: no stop, the invariant is kept, and the block returned is the best fit.
use allocator_bench.Base.{
  ℕ, ◌+◌, ◌^◌, ◌<◌, ◌≤◌, ◌≡◌, refl, sym, ap, ◌∙◌, Bool, true, false, Option, none, some, List, [],
  ◌∷◌, ◌⊎◌, inl, inr, arith, ltb, lt_of_ltb, le_of_ltb, if_cases, Option-cases, ok, ◌>>=◌, Returns,
  Returns-bind,
}
use mathlib.Core.Bool.{false≢true}
use mathlib.Core.Path.{subst}
use allocator_bench.Radix
use allocator_bench.Radix.{RadixTree, Ring, Tree, leaf, node, list_init}
use allocator_bench.Radix.Spec.{All, occurs}
use allocator_bench.Radix.Find.{BestFit, find_geq-BestFit}
use allocator_bench.Blocks.{
  Block, Pool, Cursor, set_size, set_free, rejoin, locate, new_block, take_block, split_block,
  use_block, alloc_block,
}
use allocator_bench.Blocks.Spec.{
  total, free_at, IsPool, IsCursor, total-rejoin, locate-IsCursor, locate-ne-none,
}
use allocator_bench.Blocks.Free.{OfUsed, total_at}
use allocator_bench.Blocks.Walk.{FreeSizes, FreeSizes-total, All-occurs, Holds-occurs}
use allocator_bench.Blocks.Taken.{Allocated, free_at_here, is_best}
use allocator_bench.Blocks.Split.{
  start_bounds, take_whole, IsSplit, split_block-IsSplit, take_split,
}

module _ {base limit : ℕ} {pool : Pool} {c : Cursor} (h : IsPool base limit pool)
    (at : IsCursor base limit c.here.start_addr pool.addr_list c) where
  -- The list after an allocation, as a sum over used blocks sees it.
  sum_taken :
      (f : Block → ℕ) (b : Block) (rest : List Block)
      → OfUsed f
      → c.here.is_free ≡ true
      → total f rest ≡ total f c.after
      → total f (rejoin c.before (b ∷ rest)) ≡ total f pool.addr_list + f b
  sum_taken f b rest u free same =
      omega (arith, total-rejoin f c.before (b ∷ rest), total_at h at f, u c.here free)

  use_block-Allocated :
      (has_memory : Bool) (size : ℕ)
      → 0 < size
      → size ≤ c.here.size
      → c.here.is_free ≡ true
      → FreeSizes (λ n. (n < size) ⊎ (c.here.size ≤ n)) pool.addr_list
      → Returns
          (Allocated base limit has_memory size pool)
          (use_block has_memory size pool (some c))
  unfolding use_block
  use_block-Allocated has_memory size pos fits free least =
      if_cases (Returns (Allocated base limit has_memory size pool)) (ltb size c.here.size) _ _
        (λ lt.
          if_cases (Returns (Allocated base limit has_memory size pool)) has_memory _ _
            (λ memory. split (lt_of_ltb size c.here.size lt))
            (λ no_memory. (h, refl, λ memory. absurd (false≢true (sym no_memory ∙ memory)))))
        (λ ge. whole (le_of_ltb size c.here.size ge))
    where
      counted : 0 < total (free_at c.here.size c.here.start_addr) pool.addr_list
      counted = ground (arith, free_at_here c.here.size c.here.start_addr h at c.here.size, free)

      best :
          (k : ℕ) × (0 < total (free_at k c.here.start_addr) pool.addr_list)
          × (size ≤ k)
          × FreeSizes (λ n. (n < size) ⊎ (k ≤ n)) pool.addr_list
      best = (c.here.size, counted, fits, least)

      whole :
          c.here.size ≤ size
          → Returns
              (Allocated base limit has_memory size pool)
              (take_block c.here pool >>= λ (best, pool'). ok (some best, pool'))
      whole le =
          let taken = take_whole h at free in
          rw taken.0 (
            taken.1,
            omega arith,
            refl,
            ((start_bounds h at).0, omega (arith, start_bounds h at)),
            λ f u. ap (total f) taken.2 ∙ sum_taken f (set_free false c.here) c.after u free refl,
            best,
          )

      split :
          size < c.here.size
          → Returns (Allocated base limit has_memory size pool) (
              split_block c.here size pool >>= λ pool'.
              take_block (set_size size c.here) pool' >>= λ (best, pool''). ok (some best, pool''))
      split lt =
          Returns-bind (IsSplit h at size) (Allocated base limit has_memory size pool)
            (split_block c.here size pool) _ (split_block-IsSplit h at size pos lt)
            (λ pool' mid.
              let taken = take_split h at size pool' pos lt free mid in
              rw taken.0 (
                taken.1,
                refl,
                refl,
                ((start_bounds h at).0, omega (arith, start_bounds h at)),
                λ f u.
                    ap (total f) taken.2
                    ∙ sum_taken f (set_free false (set_size size c.here))
                        (new_block c.here size ∷ c.after) u free
                        (omega (arith, u (new_block c.here size) refl)),
                best,
              ))

module _ {base limit : ℕ} {pool : Pool} (h : IsPool base limit pool) where
  -- What holds of all keys of the size tree holds of the sizes of all free blocks.
  tree_sizes : (P : ℕ → Type 0) → All P pool.size_tree.root → FreeSizes P pool.addr_list
  tree_sizes P a =
      FreeSizes-total P pool.addr_list
        (λ k i pos. All-occurs P k i pool.size_tree.root a (omega (arith, h.nodes k i)))

  found-Allocated :
      (has_memory : Bool) (size : ℕ) (found : Option Ring)
      → 0 < size
      → BestFit size pool.size_tree.root found
      → Returns (Allocated base limit has_memory size pool) (elim found [
        | none ↦ ok (none, pool)
        | some ring ↦ use_block has_memory size pool (locate ring.first [] pool.addr_list)
      ])
  found-Allocated has_memory size none pos all_small =
      (h, refl, λ memory. tree_sizes (λ k. k < size) all_small)
  found-Allocated has_memory size (some ring) pos (fits, least, holds) =
      elim (Option-cases (locate ring.first [] pool.addr_list)) [
        | inl lost ↦ absurd (
            locate-ne-none ring.key ring.first [] pool.addr_list
              (omega (arith, h.nodes ring.key ring.first, present)) lost)
        | inr (c, found) ↦ rw found (
            at_block c
              (locate-IsCursor base limit ring.first pool.addr_list c h.tiles h.apart found))
      ]
    where
      present : 0 < occurs ring.key ring.first pool.size_tree.root
      present = Holds-occurs ring pool.size_tree.root holds

      at_block :
          (c : Cursor)
          → IsCursor base limit ring.first pool.addr_list c
          → Returns
              (Allocated base limit has_memory size pool)
              (use_block has_memory size pool (some c))
      at_block c at =
          let best = is_best ring.key ring.first h at present in
          use_block-Allocated h
            (subst (λ a. IsCursor base limit a pool.addr_list c) (sym at.at_addr) at) has_memory
            size pos (omega (arith, best.1)) best.0
            (rw best.1 (tree_sizes (λ n. (n < size) ⊎ (ring.key ≤ n)) least))

  -- For a size from 1 to 2^63 - 1 the allocation neither fails an assertion nor stops, and is as
  -- `Allocated` says.
  pub alloc_block-Allocated :
      (has_memory : Bool) (size : ℕ)
      → 0 < size
      → size < 2 ^ 63
      → Returns (Allocated base limit has_memory size pool) (alloc_block has_memory size pool)
  unfolding alloc_block
  alloc_block-Allocated has_memory size pos lt =
      Returns-bind (BestFit size pool.size_tree.root) (Allocated base limit has_memory size pool)
        (Radix.find_geq pool.size_tree size) _
        (find_geq-BestFit pool.size_tree size h.valid (rw h.bits lt))
        (λ found best. found-Allocated has_memory size found pos best)
