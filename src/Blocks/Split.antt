-- ===== src/Blocks/Split.antt =====
-- The best fit is taken whole, or split first.
use allocator_bench.Base.{
  ℕ, ◌+◌, ◌-◌, ◌<◌, ◌≤◌, ◌≡◌, ◌≢◌, refl, sym, ap, ◌∙◌, true, false, List, ◌∷◌, arith, ◌==◌,
  if◌then◌else◌, ok, Returns, Returns-bind,
}
use allocator_bench.Radix
use allocator_bench.Radix.{RadixTree, Ring, Tree, leaf, node, list_init}
use allocator_bench.Radix.Spec.{IsValid, IsUnique, occurs}
use allocator_bench.Radix.Insert.{insert_lem}
use allocator_bench.Radix.Remove.{removed-IsRemoved, remove-removed}
use allocator_bench.Blocks.{
  Block, Pool, Cursor, set_size, set_free, rejoin, update, insert_addr_list, new_block, taken,
  take_block, split_block,
}
use allocator_bench.Blocks.Spec.{
  Tiles, total, free_at, IsPool, IsCursor, total-below, Tiles-le, Apart-weaken, IsPool-IsUnique,
}
use allocator_bench.Blocks.Free.{total_at}
use allocator_bench.Blocks.Walk.{
  total-back, update-rejoin, update_here, insert-rejoin, insert_behind,
}
use allocator_bench.Blocks.Taken.{TilesBack-le, taken_IsPool}

module _ {base limit : ℕ} {pool : Pool} {c : Cursor} (h : IsPool base limit pool)
    (at : IsCursor base limit c.here.start_addr pool.addr_list c) where
  pub start_bounds : (base ≤ c.here.start_addr) × (c.here.start_addr + c.here.size ≤ limit)
  start_bounds = (
    TilesBack-le base c.here.start_addr c.before at.back,
    Tiles-le (c.here.start_addr + c.here.size) limit c.after at.ahead,
  )

  pub update_in :
      (write : Block → Block) (b : Block) (rest : List Block)
      → b.start_addr ≡ c.here.start_addr
      → update c.here.start_addr write (rejoin c.before (b ∷ rest))
        ≡ rejoin c.before (write b ∷ rest)
  update_in write b rest e =
      update-rejoin base c.here.start_addr c.here.start_addr write c.before (b ∷ rest) at.back
        (omega arith)
      ∙ ap (rejoin c.before) (update_here c.here.start_addr write b rest e)

  pub update_at :
      (write : Block → Block)
      → update c.here.start_addr write pool.addr_list ≡ rejoin c.before (write c.here ∷ c.after)
  update_at write =
      ap (update c.here.start_addr write) (sym at.whole) ∙ update_in write c.here c.after refl

  -- It is in the size tree under its size.
  pub held : c.here.is_free ≡ true → 0 < occurs c.here.size c.here.start_addr pool.size_tree.root
  held free = ground (
    arith,
    h.nodes c.here.size c.here.start_addr,
    total_at h at (free_at c.here.size c.here.start_addr),
    free,
  )

  -- What taking the best fit whole leaves.
  abbrev pub whole_pool : Pool
  whole_pool = taken c.here pool (Radix.removed pool.size_tree c.here.start_addr)

  -- The best fit is of the size wanted.
  pub take_whole :
      c.here.is_free ≡ true
      → (take_block c.here pool ≡ ok (set_free false c.here, whole_pool))
        × IsPool base limit whole_pool
        × (whole_pool.addr_list ≡ rejoin c.before (set_free false c.here ∷ c.after))
  unfolding take_block
  take_whole free =
      let removed =
        removed-IsRemoved pool.size_tree c.here.start_addr h.valid
          (IsPool-IsUnique c.here.start_addr h) in
      (
        rw (remove-removed c.here.size c.here.start_addr pool.size_tree (held free)) refl,
        rw (update_at (set_free false)) (
            taken_IsPool 0 c.here.start_addr h at free c.here.size at.pos c.after
              (Radix.removed pool.size_tree c.here.start_addr) at.ahead
              (Apart-weaken c.here.is_free c.after at.apart_ahead) removed.0 (removed.1 ∙ h.bits)
              (λ k i. ground (arith, removed.2 k i, h.nodes k i, total_at h at (free_at k i)))),
        update_at (set_free false),
      )

  -- What splitting leaves for `take_block`.
  abbrev pub IsSplit : ℕ → Pool → Type 0
  IsSplit size pool' =
      (pool'.addr_list ≡ rejoin c.before (set_size size c.here ∷ new_block c.here size ∷ c.after))
      × IsValid pool'.size_tree
      × (pool'.size_tree.key_bits ≡ 63)
      × ((k i : ℕ)
          → occurs k i pool'.size_tree.root
            ≡ total (free_at k i) pool.addr_list + free_at k i (new_block c.here size))

  pub split_list :
      (size : ℕ)
      → 0 < size
      → size < c.here.size
      → insert_addr_list
          (new_block c.here size)
          (update c.here.start_addr (set_size size) pool.addr_list)
        ≡ rejoin c.before (set_size size c.here ∷ new_block c.here size ∷ c.after)
  split_list size pos lt =
      ap (insert_addr_list (new_block c.here size)) (update_at (set_size size))
      ∙ insert-rejoin base c.here.start_addr (new_block c.here size) c.before
          (set_size size c.here ∷ c.after) at.back (omega (arith, start_bounds, h.bounded))
      ∙ ap (rejoin c.before) (
          insert_behind (c.here.start_addr + c.here.size) limit (new_block c.here size)
            (set_size size c.here) c.after (omega (arith, start_bounds, h.bounded))
            (omega (arith, start_bounds, h.bounded)) at.ahead)

  -- No block starts inside the best fit.
  inside_absent :
      (size : ℕ)
      → 0 < size
      → size < c.here.size
      → (k : ℕ) → occurs k (new_block c.here size).start_addr pool.size_tree.root ≡ 0
  inside_absent size pos lt k =
      let start : ℕ = (new_block c.here size).start_addr in
      let e : start ≡ c.here.start_addr + size = omega (arith, start_bounds, h.bounded) in
      ground (
        arith,
        e,
        h.nodes k start,
        total_at h at (free_at k start),
        total-back k start base c.here.start_addr c.before at.back,
        total-below k start (c.here.start_addr + c.here.size) limit c.after at.ahead,
      )

  pub split_block-IsSplit :
      (size : ℕ)
      → 0 < size
      → size < c.here.size
      → Returns (IsSplit size) (split_block c.here size pool)
  unfolding split_block
  split_block-IsSplit size pos lt =
      Returns-bind _ (IsSplit size)
        (Radix.insert pool.size_tree (new_block c.here size).start_addr
          (new_block c.here size).size)
        _
        (insert_lem pool.size_tree (new_block c.here size).start_addr (new_block c.here size).size
          h.valid (rw h.bits (omega (arith, start_bounds, h.bounded))) (inside_absent size pos lt))
        (λ tree done. (
          split_list size pos lt,
          done.0,
          done.1 ∙ h.bits,
          λ k i. ground (arith, done.2 k i, h.nodes k i),
        ))

  pub split_Tiles :
      (size : ℕ)
      → 0 < size
      → size < c.here.size
      → Tiles (c.here.start_addr + size) limit (new_block c.here size ∷ c.after)
  split_Tiles size pos lt =
      let e : c.here.start_addr + size + (c.here.size - size) ≡ c.here.start_addr + c.here.size =
        omega arith in
      (omega (arith, start_bounds, h.bounded), omega arith, rw e at.ahead)

  -- The best fit was longer, and has been split.
  abbrev pub split_pool : ℕ → Pool → Pool
  split_pool size pool' =
      taken (set_size size c.here) pool' (Radix.removed pool'.size_tree c.here.start_addr)

  pub take_split :
      (size : ℕ) (pool' : Pool)
      → 0 < size
      → size < c.here.size
      → c.here.is_free ≡ true
      → IsSplit size pool'
      → (take_block (set_size size c.here) pool'
          ≡ ok (set_free false (set_size size c.here), split_pool size pool'))
        × IsPool base limit (split_pool size pool')
        × ((split_pool size pool').addr_list
            ≡ rejoin c.before
                (set_free false (set_size size c.here) ∷ new_block c.here size ∷ c.after))
  unfolding take_block
  take_split size pool' pos lt free split = (
    rw
        (remove-removed c.here.size c.here.start_addr pool'.size_tree (
          omega (
            arith,
            split.3 c.here.size c.here.start_addr,
            held free,
            h.nodes c.here.size c.here.start_addr,
          )))
        refl,
    rw list (
        taken_IsPool 0 c.here.start_addr h at free size pos (new_block c.here size ∷ c.after)
          (Radix.removed pool'.size_tree c.here.start_addr) (split_Tiles size pos lt)
          ((λ e. cc), rw free at at.apart_ahead) removed.0 (removed.1 ∙ split.2)
          (λ k i. nodes k i)),
    list,
  )
    where
      list :
          update c.here.start_addr (set_free false) pool'.addr_list
          ≡ rejoin c.before
              (set_free false (set_size size c.here) ∷ new_block c.here size ∷ c.after)
      list =
          ap (update c.here.start_addr (set_free false)) split.0
          ∙ update_in (set_free false) (set_size size c.here) (new_block c.here size ∷ c.after) refl

      apart_names : (k : ℕ) → free_at k c.here.start_addr (new_block c.here size) ≡ 0
      apart_names k =
          let e : (new_block c.here size).start_addr ≢ c.here.start_addr =
            omega (arith, start_bounds, h.bounded) in
          ground arith

      unique : IsUnique c.here.start_addr pool'.size_tree.root
      unique =
          let old = IsPool-IsUnique c.here.start_addr h in
          (
            λ k. omega (
              arith,
              old.0 k,
              split.3 k c.here.start_addr,
              apart_names k,
              h.nodes k c.here.start_addr,
            ),
            λ k k' ne. omega (
              arith,
              old.1 k k' ne,
              split.3 k c.here.start_addr,
              split.3 k' c.here.start_addr,
              apart_names k,
              apart_names k',
              h.nodes k c.here.start_addr,
              h.nodes k' c.here.start_addr,
            ),
          )

      removed :
          IsValid (Radix.removed pool'.size_tree c.here.start_addr)
          × ((Radix.removed pool'.size_tree c.here.start_addr).key_bits ≡ pool'.size_tree.key_bits)
          × ((k i : ℕ)
              → occurs k i (Radix.removed pool'.size_tree c.here.start_addr).root
                ≡ (if i == c.here.start_addr then 0 else occurs k i pool'.size_tree.root))
      removed = removed-IsRemoved pool'.size_tree c.here.start_addr split.1 unique

      nodes :
          (k i : ℕ)
          → occurs k i (Radix.removed pool'.size_tree c.here.start_addr).root ≡ (
              if i == c.here.start_addr
              then 0
              else total (free_at k i) c.before
                + total (free_at k i) (new_block c.here size ∷ c.after))
      nodes k i = ground (arith, removed.2 k i, split.3 k i, total_at h at (free_at k i))
