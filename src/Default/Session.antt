-- ===== src/Default/Session.antt =====
-- The life of a default allocator: its creation, any sequence of calls, and its end.
use allocator_bench.Base.{
  ℕ, ◌+◌, ◌^◌, ◌<◌, ◌≡◌, ◌⊎◌, inl, inr, refl, sym, ap, ◌∙◌, Bool, true, false, Option, none, some,
  List, [], ◌∷◌, arith, ==-eq, Run, ok, stop, ◌>>=◌, Returns, Returns-bind, Returns-imp,
}
use mathlib.Core.Path.{subst}
use allocator_bench.Radix
use allocator_bench.Radix.{RadixTree, leaf, list_init}
use allocator_bench.Radix.Spec.{occurs}
use allocator_bench.Radix.Insert.{insert_lem}
use allocator_bench.Blocks.{Block}
use allocator_bench.Blocks.Spec.{Tiles, total, free_at, used_size}
use allocator_bench.Blocks.Free.{OfUsed}
use allocator_bench.Blocks.Canonical.{addr_list_canonical, used_at, used_at-OfUsed, Block_ext}
use allocator_bench.Default.{
  Allocator, va_reservation_size, initial_block, init, alloc, free, read_start, freed_blocks,
  unmap_after, destroy,
}
use allocator_bench.Default.Valid.{
  IsValid, Granted, Outcome, FreeOutcome, alloc-Outcome, free-FreeOutcome,
}

-- A new allocator: everything is free.
abbrev pub IsNew : ℕ → Option Allocator → Type 0
IsNew base none = ⊥
IsNew base (some s) =
    IsValid base s × (s.used_va_size ≡ 0) × (s.pool.addr_list ≡ initial_block base ∷ [])

-- Where memory is had and `mmap` gives a range of user addresses, `init_default_allocator`
-- returns a valid allocator with one free block, which is the whole reservation.
pub init-IsNew :
    (base : ℕ)
    → 0 < base
    → base + va_reservation_size < 2 ^ 63
    → Returns (IsNew base) (init true (some base) true)
unfolding init Radix.init
init-IsNew base pos fits =
    Returns-bind _ (IsNew base)
      (Radix.insert (record { root = leaf; key_bits = 63 }) base va_reservation_size) _
      (insert_lem (record { root = leaf; key_bits = 63 }) base va_reservation_size tt (omega arith)
        (λ k. unfold occurs in refl))
      (λ tree (valid, bits, nodes). (
        record {
          blocks = record {
            tiles = (refl, omega arith, refl);
            apart = ((λ e. cc), tt);
            valid = valid;
            bits = bits;
            nodes = λ k i. unfold occurs in ground (arith, nodes k i);
            bounded = fits;
          };
          reserved = refl;
          counted = refl;
          not_null = pos;
        },
        refl,
        refl,
      ))

-- If init does not return NULL, then memory was had and `mmap` did not fail.
pub init-null :
    (has_memory has_block : Bool) (va_base : Option ℕ)
    → init has_memory va_base has_block ≡ ok none
      ⊎ ((has_memory ≡ true) × (has_block ≡ true) × ((base : ℕ) × (va_base ≡ some base)))
unfolding init
init-null false has_block va_base = inl refl
init-null true has_block none = inl refl
init-null true false (some base) = inl refl
init-null true true (some base) = inr (refl, refl, (base, refl))

-- A client's calls. `alloc` says whether `calloc` has memory when it is made.
pub data Request : Type 0 where
  alloc_request : Bool → ℕ → Request
  free_request : ℕ → Request

unfoldable pub serve : Request → Allocator → Run Allocator
serve (alloc_request has_memory size) s = alloc has_memory size s >>= λ (addr, s'). ok s'
serve (free_request addr) s = free addr s

unfoldable pub run : List Request → Allocator → Run Allocator
run [] s = ok s
run (r ∷ rs) s = serve r s >>= λ s'. run rs s'

serve-IsValid :
    {base : ℕ} (r : Request) (s : Allocator) → IsValid base s → Returns (IsValid base) (serve r s)
unfolding serve
serve-IsValid {base} (alloc_request has_memory size) s h =
    Returns-bind (Outcome base has_memory size s) (IsValid base) (alloc has_memory size s) _
      (alloc-Outcome h has_memory size) (λ (addr, s') done. done.0)
serve-IsValid {base} (free_request addr) s h =
    Returns-imp (FreeOutcome base addr s) (IsValid base) (free addr s) (free-FreeOutcome h addr)
      after
  where
    after : (s' : Allocator) → FreeOutcome base addr s s' → IsValid base s'
    after s' (inl (same, absent)) = subst (IsValid base) (sym same) h
    after s' (inr released) = released.valid

-- Whatever a client asks of a valid allocator, in whatever order, with addresses that were never
-- handed out or are freed twice and with sizes that do not fit: no call stops, and the allocator
-- is valid after each.
pub run-IsValid :
    {base : ℕ} (rs : List Request) (s : Allocator)
    → IsValid base s
    → Returns (IsValid base) (run rs s)
unfolding run
run-IsValid [] s h = h
run-IsValid {base} (r ∷ rs) s h =
    Returns-bind (IsValid base) (IsValid base) (serve r s) _ (serve-IsValid r s h)
      (λ s' h'. run-IsValid rs s' h')

-- In two valid states of one reservation with the same used blocks, the lists of blocks are equal.
same_used_same_list :
    {base : ℕ} (s t : Allocator)
    → IsValid base s
    → IsValid base t
    → ((f : Block → ℕ) → OfUsed f → total f s.pool.addr_list ≡ total f t.pool.addr_list)
    → s.pool.addr_list ≡ t.pool.addr_list
same_used_same_list {base} s t h k same =
    addr_list_canonical base (base + s.total_va_size) s.pool.addr_list t.pool.addr_list
      h.blocks.tiles (rw (h.reserved ∙ sym k.reserved) k.blocks.tiles) h.blocks.apart k.blocks.apart
      same

-- Two states that differ at most in the shape of the size tree.
abbrev pub Restored : Allocator → Allocator → Type 0
Restored s t =
    (t.pool.addr_list ≡ s.pool.addr_list)
    × (t.used_va_size ≡ s.used_va_size)
    × ((k i : ℕ) → occurs k i t.pool.size_tree.root ≡ occurs k i s.pool.size_tree.root)

module _ {base : ℕ} {s : Allocator} (h : IsValid base s) where
  pub restored :
      (t : Allocator)
      → IsValid base t
      → ((f : Block → ℕ) → OfUsed f → total f t.pool.addr_list ≡ total f s.pool.addr_list)
      → Restored s t
  restored t h' same =
      let list = same_used_same_list t s h' h same in
      (
        list,
        omega (arith, h.counted, h'.counted, ap (total used_size) list),
        λ k i.
            omega (arith, h.blocks.nodes k i, h'.blocks.nodes k i, ap (total (free_at k i)) list),
      )

  free-Granted :
      (size addr : ℕ) (s' : Allocator)
      → IsValid base s'
      → Granted base size s addr s'
      → (t : Allocator) → FreeOutcome base addr s' t
      → Restored s t
  free-Granted size addr s' h' g t (inl (same, absent)) = absurd (
      ground (
        arith,
        absent g.block.size,
        g.only_new (used_at g.block.size addr) (used_at-OfUsed g.block.size addr),
        g.is_used,
        g.at_addr,
      ))
  free-Granted size addr s' h' g t (inr r) =
      restored t r.valid (λ f u. omega (arith, r.only_gone f u, g.only_new f u, ap f block))
    where
      sizes : r.block.size ≡ g.block.size
      sizes = ground (
        arith,
        r.only_gone (used_at g.block.size addr) (used_at-OfUsed g.block.size addr),
        r.none_left g.block.size,
        g.only_new (used_at g.block.size addr) (used_at-OfUsed g.block.size addr),
        g.is_used,
        g.at_addr,
      )

      block : r.block ≡ g.block
      block =
          Block_ext r.block g.block (r.at_addr ∙ sym g.at_addr) sizes (r.was_used ∙ sym g.is_used)

  -- A block that is allocated and freed at once leaves no trace: the list of blocks, the size in
  -- use and the nodes of the size tree are as before.
  pub free-alloc :
      (has_memory : Bool) (size addr : ℕ) (s' : Allocator)
      → alloc has_memory size s ≡ ok (addr, s')
      → 0 < addr
      → Returns (Restored s) (free addr s')
  free-alloc has_memory size addr s' done pos = go (rw done at (alloc-Outcome h has_memory size))
    where
      go : Outcome base has_memory size s (addr, s') → Returns (Restored s) (free addr s')
      go (h', same, inl refused) = absurd (omega (arith, refused.null))
      go (h', same, inr granted) =
          Returns-imp (FreeOutcome base addr s') (Restored s) (free addr s')
            (free-FreeOutcome h' addr) (free-Granted size addr s' h' granted)

unmap-stop :
    (total_size a e : ℕ) (bs : List Block)
    → Tiles a e bs
    → a < e
    → unmap_after (freed_blocks bs) total_size bs ≡ stop
unfolding unmap_after read_start
unmap-stop total_size a e [] t lt = absurd (omega arith)
unmap-stop total_size a e (b ∷ bs) t lt = rw (==-eq b.start_addr b.start_addr refl)

-- `default_destroy` of a valid allocator always reads the first block after it has freed it.
pub destroy-stop : {base : ℕ} (s : Allocator) → IsValid base s → destroy s ≡ stop
unfolding destroy
destroy-stop {base} s h =
    unmap-stop s.total_va_size base (base + s.total_va_size) s.pool.addr_list h.blocks.tiles
      (omega (arith, h.reserved))
