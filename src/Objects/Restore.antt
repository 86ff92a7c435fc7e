-- ===== src/Objects/Restore.antt =====
-- An allocation that is freed at once, in the object allocator.
use allocator_bench.Base.{
  ℕ, ◌+◌, ◌^◌, ◌<◌, ◌≡◌, inl, inr, sym, ap, ◌∙◌, Bool, arith, ok, Returns, Returns-imp,
}
use allocator_bench.Radix.Spec.{occurs}
use allocator_bench.Blocks.{Block}
use allocator_bench.Blocks.Spec.{total, free_at}
use allocator_bench.Blocks.Free.{OfUsed}
use allocator_bench.Blocks.Canonical.{used_at, used_at-OfUsed, addr_list_canonical, Block_ext}
use allocator_bench.Objects.{
  Reservation, ObjAllocator, allocate_from_obj_allocator, free_to_obj_allocator,
}
use allocator_bench.Objects.Valid.{
  IsValid, Granted, Released, ObjOutcome, ObjFreeOutcome, allocate-ObjOutcome, free-ObjFreeOutcome,
}

-- The same blocks, and the same nodes in the size tree.
abbrev pub SameBlocks : ObjAllocator → ObjAllocator → Type 0
SameBlocks oa t =
    (t.pool.addr_list ≡ oa.pool.addr_list)
    × ((k i : ℕ) → occurs k i t.pool.size_tree.root ≡ occurs k i oa.pool.size_tree.root)

module _ {r : Reservation} {oa : ObjAllocator} (h : IsValid r oa) where
  same_used-SameBlocks :
      (t : ObjAllocator)
      → IsValid r t
      → ((f : Block → ℕ) → OfUsed f → total f t.pool.addr_list ≡ total f oa.pool.addr_list)
      → SameBlocks oa t
  same_used-SameBlocks t h' same =
      let list : t.pool.addr_list ≡ oa.pool.addr_list =
        addr_list_canonical r.addr (r.addr + r.size) t.pool.addr_list oa.pool.addr_list
          h'.blocks.tiles h.blocks.tiles h'.blocks.apart h.blocks.apart same in
      (
        list,
        λ k i.
            omega (arith, h.blocks.nodes k i, h'.blocks.nodes k i, ap (total (free_at k i)) list),
      )

  Released-Granted :
      (size addr : ℕ) (oa' t : ObjAllocator)
      → Granted r size oa addr oa'
      → IsValid r t
      → Released addr oa' t
      → SameBlocks oa t
  Released-Granted size addr oa' t g valid gone =
      same_used-SameBlocks t valid
        (λ f u. omega (arith, gone.only_gone f u, g.only_new f u, ap f block))
    where
      sizes : gone.block.size ≡ g.block.size
      sizes = ground (
        arith,
        gone.only_gone (used_at g.block.size addr) (used_at-OfUsed g.block.size addr),
        gone.none_left g.block.size,
        g.only_new (used_at g.block.size addr) (used_at-OfUsed g.block.size addr),
        g.is_used,
        g.at_addr,
      )

      block : gone.block ≡ g.block
      block =
          Block_ext gone.block g.block (gone.at_addr ∙ sym g.at_addr) sizes
            (gone.was_used ∙ sym g.is_used)

  after_free :
      (size addr : ℕ) (oa' : ObjAllocator)
      → Granted r size oa addr oa'
      → (t : ObjAllocator) → ObjFreeOutcome r addr oa' t
      → SameBlocks oa t
  after_free size addr oa' g t (valid, inl (same, absent)) = absurd (
      ground (
        arith,
        absent g.block.size,
        g.only_new (used_at g.block.size addr) (used_at-OfUsed g.block.size addr),
        g.is_used,
        g.at_addr,
      ))
  after_free size addr oa' g t (valid, inr gone) = Released-Granted size addr oa' t g valid gone

  -- A block that a valid object allocator hands out, for a positive size below 2^63, and that is
  -- freed at once fails no assertion and leaves no trace: the list of blocks and the nodes of the
  -- size tree are as before.
  pub free-allocate :
      (has_memory : Bool) (size addr : ℕ) (oa' : ObjAllocator)
      → 0 < size
      → size < 2 ^ 63
      → allocate_from_obj_allocator has_memory size oa ≡ ok (addr, oa')
      → 0 < addr
      → Returns (SameBlocks oa) (free_to_obj_allocator addr oa')
  free-allocate has_memory size addr oa' positive fits done pos =
      go (rw done at (allocate-ObjOutcome h has_memory size positive fits))
    where
      go :
          ObjOutcome r has_memory size oa (addr, oa')
          → Returns (SameBlocks oa) (free_to_obj_allocator addr oa')
      go (h', inl refused) = absurd (omega (arith, refused.null))
      go (h', inr g) =
          Returns-imp (ObjFreeOutcome r addr oa') (SameBlocks oa) (free_to_obj_allocator addr oa')
            (free-ObjFreeOutcome h' addr (omega (arith, g.within))
              (omega (arith, g.within, positive)))
            (after_free size addr oa' g)
