-- ===== src/Blocks/Free.antt =====
-- Freeing a block: the assertions hold, the invariant is kept, and one used block goes.
use allocator_bench.Base.{
  ℕ, ◌+◌, ◌^◌, ◌<◌, ◌≤◌, ◌≡◌, ◌≢◌, refl, ap, ◌∙◌, true, false, List, [], ◌∷◌, arith, ◌==◌, ==-eq,
  if_cases, inl, inr, eq_or_ne, ok, ◌>>=◌, Returns, Returns-bind, Returns-imp,
}
use allocator_bench.Radix
use allocator_bench.Radix.{RadixTree, list_init}
use allocator_bench.Radix.Spec.{IsValid, IsUnique, occurs}
use allocator_bench.Radix.Insert.{insert_lem}
use allocator_bench.Radix.Remove.{removed-IsRemoved, remove-removed}
use allocator_bench.Blocks.{
  Block, Pool, Cursor, Merge, u64, set_size, set_free, rejoin, merge_prev, merge_next, free_block,
}
use allocator_bench.Blocks.Spec.{
  Tiles, TilesBack, Apart, total, free_at, IsPool, IsCursor, Tiles-le, total_unique,
  total_unique_key, total-rejoin, Tiles-rejoin, Apart-rejoin,
}

-- A sum that counts used blocks alone.
abbrev pub OfUsed : (Block → ℕ) → Type 0
OfUsed f = (b : Block) → b.is_free ≡ true → f b ≡ 0

-- While a block is being freed: it is marked as free, and it alone is not in the size tree.
record IsMerge (base limit : ℕ) (before : List Block) (block : Block) (after : List Block)
    (tree : RadixTree) : Type 0 where
  marked : block.is_free ≡ true
  pos : 0 < block.size
  back : TilesBack base block.start_addr before
  ahead : Tiles (block.start_addr + block.size) limit after
  valid : IsValid tree
  bits : tree.key_bits ≡ 63
  nodes : (k i : ℕ) → occurs k i tree.root ≡ total (free_at k i) before + total (free_at k i) after
  bounded : limit < 2 ^ 63

module _ {base limit : ℕ} {before : List Block} {block : Block} {after : List Block}
    {tree : RadixTree} (h : IsMerge base limit before block after tree) where
  whole_Tiles : Tiles base limit (rejoin before (block ∷ after))
  whole_Tiles =
      Tiles-rejoin base block.start_addr limit before (block ∷ after) h.back (refl, h.pos, h.ahead)

  end_bound : block.start_addr + block.size < 2 ^ 63
  end_bound = omega (arith, h.bounded, Tiles-le (block.start_addr + block.size) limit after h.ahead)

  one_of :
      (k i : ℕ) → total (free_at k i) before + free_at k i block + total (free_at k i) after ≤ 1
  one_of k i = omega (
    arith,
    total_unique k i base limit (rejoin before (block ∷ after)) whole_Tiles,
    total-rejoin (free_at k i) before (block ∷ after),
  )

  one_of_two :
      (k k' i : ℕ)
      → k ≢ k'
      → total (free_at k i) before
          + total (free_at k i) after
          + (total (free_at k' i) before + total (free_at k' i) after)
        ≤ 1
  one_of_two k k' i ne = omega (
    arith,
    total_unique_key k k' i base limit (rejoin before (block ∷ after)) whole_Tiles ne,
    total-rejoin (free_at k i) before (block ∷ after),
    total-rejoin (free_at k' i) before (block ∷ after),
  )

  IsMerge-IsUnique : (id : ℕ) → IsUnique id tree.root
  IsMerge-IsUnique id = (
    λ k. omega (arith, h.nodes k id, one_of k id),
    λ k k' ne. omega (arith, h.nodes k id, h.nodes k' id, one_of_two k k' id ne),
  )

  -- The block that is being freed is not in the size tree.
  absent : (k : ℕ) → occurs k block.start_addr tree.root ≡ 0
  absent k = elim (eq_or_ne k block.size) [
    | inl e ↦ ground (arith, h.nodes k block.start_addr, one_of k block.start_addr, h.marked, e)
    | inr ne ↦ ground (
      arith,
      h.nodes k block.start_addr,
      h.marked,
      total_unique_key k block.size block.start_addr base limit (rejoin before (block ∷ after))
          whole_Tiles ne,
      total-rejoin (free_at k block.start_addr) before (block ∷ after),
      total-rejoin (free_at block.size block.start_addr) before (block ∷ after),
    )
  ]

  -- A free neighbour leaves the size tree.
  nodes-remove :
      (b : Block) (rest : ℕ → ℕ → ℕ)
      → b.is_free ≡ true
      → ((k i : ℕ)
          → total (free_at k i) before + total (free_at k i) after ≡ free_at k i b + rest k i)
      → (k i : ℕ) → occurs k i (Radix.removed tree b.start_addr).root ≡ rest k i
  nodes-remove b rest free split k i = ground (
    arith,
    (removed-IsRemoved tree b.start_addr h.valid (IsMerge-IsUnique b.start_addr)).2 k i,
    h.nodes k i,
    split k i,
    split b.size i,
    one_of k i,
    one_of_two k b.size i,
  )

  final_IsPool :
      Apart true before
      → Apart true after
      → Returns
          (λ pool. IsPool base limit pool × (pool.addr_list ≡ rejoin before (block ∷ after)))
          (Radix.insert tree block.start_addr block.size >>= λ tree'.
            ok (record { addr_list = rejoin before (block ∷ after); size_tree = tree' }))
  final_IsPool apart_back apart_ahead =
      Returns-bind _
        (λ (pool : Pool). IsPool base limit pool × (pool.addr_list ≡ rejoin before (block ∷ after)))
        (Radix.insert tree block.start_addr block.size)
        (λ tree'. ok (record { addr_list = rejoin before (block ∷ after); size_tree = tree' }))
        (insert_lem tree block.start_addr block.size h.valid (rw h.bits (omega (arith, end_bound)))
          absent)
        (λ tree' done. (
          record {
            tiles = whole_Tiles;
            apart =
                Apart-rejoin before block after (rw h.marked apart_back) (rw h.marked apart_ahead);
            valid = done.0;
            bits = done.1 ∙ h.bits;
            nodes = λ k i. ground (
              arith,
              done.2 k i,
              h.nodes k i,
              h.marked,
              total-rejoin (free_at k i) before (block ∷ after),
            );
            bounded = h.bounded;
          },
          refl,
        ))

-- What a merge leaves: a list on one side with no free block next to the one that is freed, and
-- with the same used blocks.
abbrev SideOf : List Block → List Block → Type 0
SideOf old new = Apart true new × ((f : Block → ℕ) → OfUsed f → total f new ≡ total f old)

abbrev AfterPrev : ℕ → ℕ → List Block → List Block → Merge → Type 0
AfterPrev base limit before after (before', block', tree') =
    IsMerge base limit before' block' after tree' × SideOf before before'

abbrev AfterNext : ℕ → ℕ → List Block → List Block → Merge → Type 0
AfterNext base limit before after (after', block', tree') =
    IsMerge base limit before block' after' tree' × SideOf after after'

module _ {base limit : ℕ} where
  merge_prev-AfterPrev :
      (before : List Block) (block : Block) (after : List Block) (tree : RadixTree)
      → IsMerge base limit before block after tree
      → Apart false before
      → Returns (AfterPrev base limit before after) (merge_prev before block tree)
  unfolding merge_prev
  merge_prev-AfterPrev [] block after tree h apart = (h, (tt, λ f u. refl))
  merge_prev-AfterPrev (prev ∷ before) block after tree h apart = rw adjacent (
      if_cases (Returns (AfterPrev base limit (prev ∷ before) after)) prev.is_free _ _
        (λ free.
          rw (remove-removed prev.size prev.start_addr tree (held free))
            (merged free, (rw free at apart.1, λ f u. omega (arith, u prev free))))
        (λ used. (h, (((λ e e'. cc), apart.1), λ f u. refl))))
    where
      adjacent : (block.start_addr == u64 (prev.start_addr + prev.size)) ≡ true
      adjacent =
          ==-eq block.start_addr (u64 (prev.start_addr + prev.size))
            (omega (arith, h.back.0, end_bound h))

      joined : prev.start_addr + u64 (prev.size + block.size) ≡ block.start_addr + block.size
      joined = omega (arith, h.back.0, end_bound h)

      held : prev.is_free ≡ true → 0 < occurs prev.size prev.start_addr tree.root
      held free = ground (arith, h.nodes prev.size prev.start_addr, free)

      merged :
          prev.is_free ≡ true
          → IsMerge base limit before
              (set_size (u64 (prev.size + block.size)) prev)
              after
              (Radix.removed tree prev.start_addr)
      merged free = record {
        marked = free;
        pos = omega (arith, h.back, h.pos, end_bound h);
        back = h.back.2;
        ahead = rw joined h.ahead;
        valid =
            (removed-IsRemoved tree prev.start_addr h.valid (IsMerge-IsUnique h prev.start_addr)).0;
        bits =
            (removed-IsRemoved tree prev.start_addr h.valid (IsMerge-IsUnique h prev.start_addr)).1
            ∙ h.bits;
        nodes =
            nodes-remove h prev (λ k i. total (free_at k i) before + total (free_at k i) after) free
              (λ k i. omega arith);
        bounded = h.bounded;
      }

  merge_next-AfterNext :
      (before : List Block) (block : Block) (after : List Block) (tree : RadixTree)
      → IsMerge base limit before block after tree
      → Apart false after
      → Returns (AfterNext base limit before after) (merge_next after block tree)
  unfolding merge_next
  merge_next-AfterNext before block [] tree h apart = (h, (tt, λ f u. refl))
  merge_next-AfterNext before block (next ∷ after) tree h apart = rw adjacent (
      if_cases (Returns (AfterNext base limit before (next ∷ after))) next.is_free _ _
        (λ free.
          rw (remove-removed next.size next.start_addr tree (held free))
            (merged free, (rw free at apart.1, λ f u. omega (arith, u next free))))
        (λ used. (h, (((λ e e'. cc), apart.1), λ f u. refl))))
    where
      adjacent : (u64 (block.start_addr + block.size) == next.start_addr) ≡ true
      adjacent =
          ==-eq (u64 (block.start_addr + block.size)) next.start_addr
            (omega (arith, h.ahead.0, end_bound h))

      next_end : next.start_addr + next.size ≤ limit
      next_end = omega (
        arith,
        h.ahead.0,
        Tiles-le (block.start_addr + block.size + next.size) limit after h.ahead.2,
      )

      joined :
          block.start_addr + u64 (block.size + next.size)
          ≡ block.start_addr + block.size + next.size
      joined = omega (arith, h.ahead.0, next_end, h.bounded)

      held : next.is_free ≡ true → 0 < occurs next.size next.start_addr tree.root
      held free = ground (arith, h.nodes next.size next.start_addr, free)

      merged :
          next.is_free ≡ true
          → IsMerge base limit before
              (set_size (u64 (block.size + next.size)) block)
              after
              (Radix.removed tree next.start_addr)
      merged free = record {
        marked = h.marked;
        pos = omega (arith, h.ahead.0, next_end, h.pos, h.bounded);
        back = h.back;
        ahead = rw joined h.ahead.2;
        valid =
            (removed-IsRemoved tree next.start_addr h.valid (IsMerge-IsUnique h next.start_addr)).0;
        bits =
            (removed-IsRemoved tree next.start_addr h.valid (IsMerge-IsUnique h next.start_addr)).1
            ∙ h.bits;
        nodes =
            nodes-remove h next (λ k i. total (free_at k i) before + total (free_at k i) after) free
              (λ k i. omega arith);
        bounded = h.bounded;
      }

-- What freeing the block at the cursor `c` of `pool` comes to: the invariant holds, and of the
-- used blocks that one is gone.
abbrev pub Freed : ℕ → ℕ → Pool → Cursor → Pool → Type 0
Freed base limit pool c pool' =
    IsPool base limit pool'
    × ((f : Block → ℕ) → OfUsed f → total f pool'.addr_list + f c.here ≡ total f pool.addr_list)

module _ {base limit addr : ℕ} {pool : Pool} {c : Cursor} (h : IsPool base limit pool)
    (at : IsCursor base limit addr pool.addr_list c) where
  pub total_at :
      (f : Block → ℕ) → total f pool.addr_list ≡ total f c.before + f c.here + total f c.after
  total_at f = omega (arith, ap (total f) at.whole, total-rejoin f c.before (c.here ∷ c.after))

  start-IsMerge :
      c.here.is_free ≡ false
      → IsMerge base limit c.before (set_free true c.here) c.after pool.size_tree
  start-IsMerge used = record {
    marked = refl;
    pos = at.pos;
    back = rw at.at_addr at.back;
    ahead = rw at.at_addr at.ahead;
    valid = h.valid;
    bits = h.bits;
    nodes = λ k i. ground (arith, h.nodes k i, total_at (free_at k i), used);
    bounded = h.bounded;
  }

  -- Freeing a used block neither fails an assertion nor stops: the invariant holds again, with
  -- all free neighbours merged, and of the used blocks that one alone is gone.
  pub free_block-Freed :
      c.here.is_free ≡ false → Returns (Freed base limit pool c) (free_block c pool.size_tree)
  unfolding free_block
  free_block-Freed used =
      Returns-bind (AfterPrev base limit c.before c.after) (Freed base limit pool c)
        (merge_prev c.before (set_free true c.here) pool.size_tree) _
        (merge_prev-AfterPrev c.before (set_free true c.here) c.after pool.size_tree
          (start-IsMerge used) (rw used at at.apart_back))
        (λ (before, block, tree) (mid, side).
          Returns-bind (AfterNext base limit before c.after) (Freed base limit pool c)
            (merge_next c.after block tree) _
            (merge_next-AfterNext before block c.after tree mid (rw used at at.apart_ahead))
            (λ (after, block', tree') (last, side').
              Returns-imp _ (Freed base limit pool c) _ (final_IsPool last side.0 side'.0)
                (λ pool' (inv, list). (
                  inv,
                  λ f u. omega (
                    arith,
                    ap (total f) list,
                    total-rejoin f before (block' ∷ after),
                    side.1 f u,
                    side'.1 f u,
                    total_at f,
                    u block' last.marked,
                  ),
                ))))
