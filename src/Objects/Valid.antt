-- ===== src/Objects/Valid.antt =====
-- The invariant of an object allocator, and what each of its operations comes to.
use allocator_bench.Base.{
  ℕ, ◌+◌, ◌^◌, ◌<◌, ◌≤◌, ◌≡◌, ◌⊎◌, inl, inr, refl, sym, Bool, true, false, Option, none, some, [],
  ◌∷◌, ◌||◌, arith, ltb, leb, if_cases, Option-cases, stop, Returns, Returns-bind,
}
use mathlib.Core.Path.{subst}
use allocator_bench.Radix
use allocator_bench.Radix.{leaf}
use allocator_bench.Radix.Spec.{occurs}
use allocator_bench.Radix.Insert.{insert_lem}
use allocator_bench.Blocks.{Block, Pool, Cursor, u64, locate, alloc_block, free_block}
use allocator_bench.Blocks.Spec.{total, free_at, IsPool, IsCursor, locate-IsCursor}
use allocator_bench.Blocks.Free.{OfUsed, Freed, free_block-Freed}
use allocator_bench.Blocks.Canonical.{used_at, used_at-OfUsed, used-locate-none, used-cursor}
use allocator_bench.Blocks.Taken.{Allocated}
use allocator_bench.Blocks.Alloc.{alloc_block-Allocated}
use allocator_bench.Blocks.Walk.{FreeSizes}
use allocator_bench.Objects.{
  Reservation, ObjAllocator, first_block, initialize_obj_allocator, give,
  allocate_from_obj_allocator, free_obj_at, free_to_obj_allocator,
}

-- The blocks tile the reservation `r`, which is the allocator's.
pub record IsValid (r : Reservation) (oa : ObjAllocator) : Type 0 where
  pub blocks : IsPool r.addr (r.addr + r.size) oa.pool
  pub parent : oa.parent_reservation ≡ r
  pub not_null : 0 < r.addr

-- The call returned 0 and changed nothing, for lack of memory or of a large enough free block.
pub record Refused (has_memory : Bool) (size : ℕ) (oa : ObjAllocator) (addr : ℕ)
    (oa' : ObjAllocator) : Type 0 where
  pub null : addr ≡ 0
  pub unchanged : oa' ≡ oa
  pub reason : has_memory ≡ true → FreeSizes (λ k. k < size) oa.pool.addr_list

-- The call returned the start of a used block in the reservation, the only new used block, which is
-- cut from the start of the least free block that is large enough.
pub record Granted (r : Reservation) (size : ℕ) (oa : ObjAllocator) (addr : ℕ) (oa' : ObjAllocator)
    : Type 0 where
  pub block : Block
  pub at_addr : block.start_addr ≡ addr
  pub of_size : block.size ≡ size
  pub is_used : block.is_free ≡ false
  pub within : (0 < addr) × (r.addr ≤ addr) × (addr + size ≤ r.addr + r.size)
  pub only_new :
      (f : Block → ℕ) → OfUsed f → total f oa'.pool.addr_list ≡ total f oa.pool.addr_list + f block
  pub fit : ℕ
  pub was_free : 0 < total (free_at fit addr) oa.pool.addr_list
  pub large_enough : size ≤ fit
  pub least : FreeSizes (λ n. (n < size) ⊎ (fit ≤ n)) oa.pool.addr_list

abbrev pub ObjOutcome : Reservation → Bool → ℕ → ObjAllocator → ℕ × ObjAllocator → Type 0
ObjOutcome r has_memory size oa (addr, oa') =
    IsValid r oa' × (Refused has_memory size oa addr oa' ⊎ Granted r size oa addr oa')

-- No used block starts at the address and nothing changed, or the used block that starts there is no
-- longer used and no other used block changed.
pub record Released (addr : ℕ) (oa oa' : ObjAllocator) : Type 0 where
  pub block : Block
  pub at_addr : block.start_addr ≡ addr
  pub was_used : block.is_free ≡ false
  pub only_gone :
      (f : Block → ℕ) → OfUsed f → total f oa'.pool.addr_list + f block ≡ total f oa.pool.addr_list
  pub none_left : (k : ℕ) → total (used_at k addr) oa'.pool.addr_list ≡ 0

abbrev pub ObjFreeOutcome : Reservation → ℕ → ObjAllocator → ObjAllocator → Type 0
ObjFreeOutcome r addr oa oa' =
    IsValid r oa'
    × (((oa' ≡ oa) × ((k : ℕ) → total (used_at k addr) oa.pool.addr_list ≡ 0))
        ⊎ Released addr oa oa')

module _ {r : Reservation} {oa : ObjAllocator} (h : IsValid r oa) where
  give-ObjOutcome :
      (has_memory : Bool) (size : ℕ) (result : Option Block × Pool)
      → Allocated r.addr (r.addr + r.size) has_memory size oa.pool result
      → ObjOutcome r has_memory size oa (give oa result)
  unfolding give
  give-ObjOutcome has_memory size (none, pool) (inv, same, none_fits) =
      let unchanged : record oa { pool = pool } ≡ oa = λ i. record oa { pool = same i } in
      (
        subst (IsValid r) (sym unchanged) h,
        inl (record { null = refl; unchanged = unchanged; reason = none_fits }),
      )
  give-ObjOutcome has_memory size (some b, pool) (inv, size_eq, used, bounds, sums, best) = (
    record { blocks = inv; parent = h.parent; not_null = h.not_null },
    inr (record {
      block = b;
      at_addr = refl;
      of_size = size_eq;
      is_used = used;
      within = (omega (arith, h.not_null, bounds), bounds.0, bounds.1);
      only_new = sums;
      fit = best.0;
      was_free = best.1;
      large_enough = best.2;
      least = best.3;
    }),
  )

  -- Allocation of a positive size below 2^63 from a valid object allocator fails no assertion and
  -- leaves a valid allocator. Either it returns 0 and changes nothing, and then memory lacks or no
  -- free block is large enough; or it returns the start of a used block of that size in the
  -- reservation, which is cut from the start of a free block of the least size that is large enough,
  -- and no other used block comes or goes.
  pub allocate-ObjOutcome :
      (has_memory : Bool) (size : ℕ)
      → 0 < size
      → size < 2 ^ 63
      → Returns (ObjOutcome r has_memory size oa) (allocate_from_obj_allocator has_memory size oa)
  unfolding allocate_from_obj_allocator
  allocate-ObjOutcome has_memory size pos fits =
      Returns-bind (Allocated r.addr (r.addr + r.size) has_memory size oa.pool)
        (ObjOutcome r has_memory size oa) (alloc_block has_memory size oa.pool) _
        (alloc_block-Allocated h.blocks has_memory size pos fits)
        (λ result done. give-ObjOutcome has_memory size result done)

  free_obj_at-ObjFreeOutcome :
      (addr : ℕ) (c : Cursor)
      → IsCursor r.addr (r.addr + r.size) addr oa.pool.addr_list c
      → Returns (ObjFreeOutcome r addr oa) (free_obj_at oa (some c))
  unfolding free_obj_at
  free_obj_at-ObjFreeOutcome addr c at =
      if_cases (Returns (ObjFreeOutcome r addr oa)) c.here.is_free _ _
        (λ is_free. (
          h,
          inl (refl, λ k. omega (arith, used-cursor k at, used_at-OfUsed k addr c.here is_free)),
        ))
        (λ used.
          Returns-bind (Freed r.addr (r.addr + r.size) oa.pool c) (ObjFreeOutcome r addr oa)
            (free_block c oa.pool.size_tree) _ (free_block-Freed h.blocks at used)
            (λ pool (inv, sums). (
              record { blocks = inv; parent = h.parent; not_null = h.not_null },
              inr (record {
                block = c.here;
                at_addr = at.at_addr;
                was_used = used;
                only_gone = sums;
                none_left = λ k.
                    omega (arith, sums (used_at k addr) (used_at-OfUsed k addr), used-cursor k at);
              }),
            )))

  -- Freeing an address in the reservation of a valid object allocator fails no assertion and leaves a
  -- valid allocator. Either no used block starts there and nothing changes, or the used block that
  -- starts there is the only one to go.
  pub free-ObjFreeOutcome :
      (addr : ℕ)
      → r.addr ≤ addr
      → addr < r.addr + r.size
      → Returns (ObjFreeOutcome r addr oa) (free_to_obj_allocator addr oa)
  unfolding free_to_obj_allocator
  free-ObjFreeOutcome addr low high =
      if_cases (Returns (ObjFreeOutcome r addr oa))
        (ltb addr oa.parent_reservation.addr
          || leb (u64 (oa.parent_reservation.addr + oa.parent_reservation.size)) addr)
        stop (free_obj_at oa (locate addr [] oa.pool.addr_list))
        (λ bad. absurd (
          let inside : (ltb addr r.addr || leb (u64 (r.addr + r.size)) addr) ≡ true =
            rw h.parent at bad in
          ground (arith, h.blocks.bounded)))
        (λ good. elim (Option-cases (locate addr [] oa.pool.addr_list)) [
          | inl lost ↦ rw lost (
              unfold free_obj_at in
              (h, inl (refl, λ k. used-locate-none k addr [] oa.pool.addr_list lost)))
          | inr (c, found) ↦ rw found (
              free_obj_at-ObjFreeOutcome addr c (
                locate-IsCursor r.addr (r.addr + r.size) addr oa.pool.addr_list c h.blocks.tiles
                  h.blocks.apart found))
        ])

-- A new object allocator is valid and has one block, free, which is the whole reservation.
abbrev pub IsNew : Reservation → Option ObjAllocator → Type 0
IsNew r none = ⊥
IsNew r (some oa) = IsValid r oa × (oa.pool.addr_list ≡ first_block r ∷ [])

-- Where memory is had, initialisation on a reservation that is not empty and lies in user addresses
-- returns a valid object allocator with one free block, which is the whole reservation.
pub initialize_obj_allocator-IsNew :
    (r : Reservation)
    → 0 < r.addr
    → 0 < r.size
    → r.addr + r.size < 2 ^ 63
    → Returns (IsNew r) (initialize_obj_allocator true true r)
unfolding initialize_obj_allocator Radix.init
initialize_obj_allocator-IsNew r not_null pos fits =
    Returns-bind _ (IsNew r) (Radix.insert (record { root = leaf; key_bits = 63 }) r.addr r.size) _
      (insert_lem (record { root = leaf; key_bits = 63 }) r.addr r.size tt (omega arith)
        (λ k. unfold occurs in refl))
      (λ tree (valid, bits, nodes). (
        record {
          blocks = record {
            tiles = (refl, pos, refl);
            apart = ((λ e. cc), tt);
            valid = valid;
            bits = bits;
            nodes = λ k i. unfold occurs in ground (arith, nodes k i);
            bounded = fits;
          };
          parent = refl;
          not_null = not_null;
        },
        refl,
      ))
