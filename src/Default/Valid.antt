-- ===== src/Default/Valid.antt =====
-- The invariant of the default allocator, and that every call keeps it.
use allocator_bench.Base.{
  ℕ, ◌+◌, ◌-◌, ◌^◌, ◌<◌, ◌≤◌, ◌≡◌, ◌⊎◌, inl, inr, refl, sym, Bool, true, false, Option, none, some,
  List, [], ◌∷◌, ◌||◌, arith, ltb, ◌==◌, if_cases, Option-cases, ok, ◌>>=◌, Returns, Returns-bind,
  Returns-imp,
}
use mathlib.Core.Path.{subst}
use allocator_bench.Blocks.{Block, Pool, Cursor, u64, locate, alloc_block, free_block}
use allocator_bench.Blocks.Spec.{
  Tiles, total, used_size, free_at, IsPool, IsCursor, locate-IsCursor,
}
use allocator_bench.Blocks.Free.{OfUsed, Freed, free_block-Freed}
use allocator_bench.Blocks.Canonical.{used_at, used_at-OfUsed, used-locate-none, used-cursor}
use allocator_bench.Blocks.Taken.{Allocated}
use allocator_bench.Blocks.Alloc.{alloc_block-Allocated}
use allocator_bench.Blocks.Walk.{FreeSizes}
use allocator_bench.Default.{Allocator, va_reservation_size, account, alloc, free_at_cursor, free}

-- The blocks tile the reservation at `base`, whose size is `total_va_size`, and `used_va_size` is
-- the sum of the sizes of the used blocks.
pub record IsValid (base : ℕ) (s : Allocator) : Type 0 where
  pub blocks : IsPool base (base + s.total_va_size) s.pool
  pub reserved : s.total_va_size ≡ va_reservation_size
  pub counted : s.used_va_size ≡ total used_size s.pool.addr_list
  pub not_null : 0 < base

used_size-OfUsed : OfUsed used_size
used_size-OfUsed b free = rw free refl

used-le : (a e : ℕ) (bs : List Block) → Tiles a e bs → a + total used_size bs ≤ e
used-le a e [] t = omega arith
used-le a e (b ∷ bs) t = ground (arith, used-le (a + b.size) e bs t.2)

-- A call of `default_alloc` that returns 0 changes nothing, and then the size is 0 or more than
-- the reservation, or memory lacks, or no free block is large enough.
pub record Refused (has_memory : Bool) (size : ℕ) (s : Allocator) (addr : ℕ) (s' : Allocator)
    : Type 0 where
  pub null : addr ≡ 0
  pub unchanged : s' ≡ s
  pub reason :
      0 < size
      → size ≤ s.total_va_size
      → has_memory ≡ true
      → FreeSizes (λ k. k < size) s.pool.addr_list

-- Another returns the start of a block in the reservation that is now used, has the size wanted,
-- and is the only new used block. It is cut from the start of a free block of size `fit`, the
-- least that is large enough.
pub record Granted (base size : ℕ) (s : Allocator) (addr : ℕ) (s' : Allocator) : Type 0 where
  pub block : Block
  pub at_addr : block.start_addr ≡ addr
  pub of_size : block.size ≡ size
  pub is_used : block.is_free ≡ false
  pub positive : (0 < addr) × (0 < size)
  pub within : (base ≤ addr) × (addr + size ≤ base + s.total_va_size)
  pub only_new :
      (f : Block → ℕ) → OfUsed f → total f s'.pool.addr_list ≡ total f s.pool.addr_list + f block
  pub fit : ℕ
  pub was_free : 0 < total (free_at fit addr) s.pool.addr_list
  pub large_enough : size ≤ fit
  pub least : FreeSizes (λ n. (n < size) ⊎ (fit ≤ n)) s.pool.addr_list

abbrev pub Outcome : ℕ → Bool → ℕ → Allocator → ℕ × Allocator → Type 0
Outcome base has_memory size s (addr, s') =
    IsValid base s'
    × (s'.total_va_size ≡ s.total_va_size)
    × (Refused has_memory size s addr s' ⊎ Granted base size s addr s')

module _ {base : ℕ} {s : Allocator} (h : IsValid base s) where
  account-Outcome :
      (has_memory : Bool) (size : ℕ)
      → 0 < size
      → (result : Option Block × Pool)
      → Allocated base (base + s.total_va_size) has_memory size s.pool result
      → Outcome base has_memory size s (account s result)
  unfolding account
  account-Outcome has_memory size pos (none, pool) (inv, same, none_fits) =
      let unchanged : record s { pool = pool } ≡ s = λ i. record s { pool = same i } in
      (
        subst (IsValid base) (sym unchanged) h,
        refl,
        inl (record {
          null = refl;
          unchanged = unchanged;
          reason = λ p q memory. none_fits memory;
        }),
      )
  account-Outcome has_memory size pos (some b, pool) (inv, size_eq, used, bounds, sums, best) = (
    record { blocks = inv; reserved = h.reserved; counted = count; not_null = h.not_null },
    refl,
    inr (record {
      block = b;
      at_addr = refl;
      of_size = size_eq;
      is_used = used;
      positive = (omega (arith, h.not_null, bounds), pos);
      within = bounds;
      only_new = sums;
      fit = best.0;
      was_free = best.1;
      large_enough = best.2;
      least = best.3;
    }),
  )
    where
      count : u64 (s.used_va_size + b.size) ≡ total used_size pool.addr_list
      count = ground (
        arith,
        h.counted,
        sums used_size used_size-OfUsed,
        used-le base (base + s.total_va_size) pool.addr_list inv.tiles,
        inv.bounded,
        used,
      )

  -- `default_alloc` of any size on a valid state fails no assertion and leaves a valid state. Either
  -- it returns 0 and changes nothing, and then the size is 0 or more than the reservation, or memory
  -- lacks, or no free block is large enough; or it returns the start of a used block of that size in
  -- the reservation, which is cut from the start of a free block of the least size that is large
  -- enough, and no other used block comes or goes.
  pub alloc-Outcome :
      (has_memory : Bool) (size : ℕ)
      → Returns (Outcome base has_memory size s) (alloc has_memory size s)
  unfolding alloc
  alloc-Outcome has_memory size =
      if_cases (Returns (Outcome base has_memory size s)) (size == 0 || ltb s.total_va_size size) _
        _
        (λ bad. (
          h,
          refl,
          inl (record {
            null = refl;
            unchanged = refl;
            reason = λ p q memory. absurd (ground arith);
          }),
        ))
        (λ good.
          Returns-bind (Allocated base (base + s.total_va_size) has_memory size s.pool)
            (Outcome base has_memory size s) (alloc_block has_memory size s.pool) _
            (alloc_block-Allocated h.blocks has_memory size (ground arith)
              (ground (arith, h.reserved)))
            (λ result done. account-Outcome has_memory size (ground arith) result done))

-- What `default_free` of an address comes to: nothing, if no used block starts there; else the
-- used block that starts there is no longer used, and no other changes.
pub record Released (base addr : ℕ) (s s' : Allocator) : Type 0 where
  pub valid : IsValid base s'
  pub total_same : s'.total_va_size ≡ s.total_va_size
  pub block : Block
  pub at_addr : block.start_addr ≡ addr
  pub was_used : block.is_free ≡ false
  pub only_gone :
      (f : Block → ℕ) → OfUsed f → total f s'.pool.addr_list + f block ≡ total f s.pool.addr_list
  pub none_left : (k : ℕ) → total (used_at k addr) s'.pool.addr_list ≡ 0

abbrev pub FreeOutcome : ℕ → ℕ → Allocator → Allocator → Type 0
FreeOutcome base addr s s' =
    ((s' ≡ s) × ((k : ℕ) → total (used_at k addr) s.pool.addr_list ≡ 0)) ⊎ Released base addr s s'

module _ {base : ℕ} {s : Allocator} (h : IsValid base s) (addr : ℕ) where
  free-absent :
      locate addr [] s.pool.addr_list ≡ none → (k : ℕ) → total (used_at k addr) s.pool.addr_list ≡ 0
  free-absent lost k = used-locate-none k addr [] s.pool.addr_list lost

  release :
      (c : Cursor)
      → IsCursor base (base + s.total_va_size) addr s.pool.addr_list c
      → c.here.is_free ≡ false
      → Returns (Released base addr s) (
          free_block c s.pool.size_tree >>= λ pool.
          ok (record s { pool = pool; used_va_size = u64 (s.used_va_size + 2 ^ 64 - c.here.size) }))
  release c at used =
      Returns-bind (Freed base (base + s.total_va_size) s.pool c) (Released base addr s)
        (free_block c s.pool.size_tree) _ (free_block-Freed h.blocks at used)
        (λ pool (inv, sums). record {
          valid = record {
            blocks = inv;
            reserved = h.reserved;
            counted = ground (
              arith,
              h.counted,
              used,
              sums used_size used_size-OfUsed,
              used-le base (base + s.total_va_size) s.pool.addr_list h.blocks.tiles,
              h.blocks.bounded,
            );
            not_null = h.not_null;
          };
          total_same = refl;
          block = c.here;
          at_addr = at.at_addr;
          was_used = used;
          only_gone = sums;
          none_left =
              λ k. omega (arith, sums (used_at k addr) (used_at-OfUsed k addr), used-cursor k at);
        })

  -- `default_free` of any address on a valid state fails no assertion. Either no used block starts
  -- there and nothing changes; or the used block that starts there is the only one to go, none starts
  -- there any more, and the state is valid.
  pub free-FreeOutcome : Returns (FreeOutcome base addr s) (free addr s)
  unfolding free free_at_cursor
  free-FreeOutcome = elim (Option-cases (locate addr [] s.pool.addr_list)) [
    | inl lost ↦ rw lost (inl (refl, free-absent lost))
    | inr (c, found) ↦ rw found (
        at_cursor c (
          locate-IsCursor base (base + s.total_va_size) addr s.pool.addr_list c h.blocks.tiles
            h.blocks.apart found))
  ]
    where
      at_cursor :
          (c : Cursor)
          → IsCursor base (base + s.total_va_size) addr s.pool.addr_list c
          → Returns (FreeOutcome base addr s) (free_at_cursor s (some c))
      at_cursor c at =
          if_cases (Returns (FreeOutcome base addr s)) c.here.is_free _ _
            (λ is_free.
              inl
                (refl, λ k. omega (arith, used-cursor k at, used_at-OfUsed k addr c.here is_free)))
            (λ used.
              Returns-imp (Released base addr s) (FreeOutcome base addr s) _ (release c at used)
                (λ s' done. inr done))
