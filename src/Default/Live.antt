-- ===== src/Default/Live.antt =====
-- The default allocator as its callers see it: which addresses are in use, with which size.
use allocator_bench.Base.{
  ℕ, ◌+◌, ◌<◌, ◌≤◌, ◌≡◌, ◌≢◌, ◌⊎◌, inl, inr, refl, sym, ap, ◌∙◌, Bool, List, [], ◌∷◌, arith, ◌==◌,
  if◌then◌else◌, Returns, Returns-imp,
}
use mathlib.Core.Path.{fun_ext, subst}
use allocator_bench.Blocks.{Block}
use allocator_bench.Blocks.Spec.{Tiles, Tiles-le, total, free_at, total-below}
use allocator_bench.Blocks.Free.{OfUsed}
use allocator_bench.Blocks.Canonical.{used_at}
use allocator_bench.Default.{Allocator, va_reservation_size, alloc, free}
use allocator_bench.Default.Valid.{
  IsValid, Granted, Outcome, FreeOutcome, alloc-Outcome, free-FreeOutcome,
}

-- The size of the used block that starts at an address; 0 if there is none.
abbrev pub Live : Type 0
Live = ℕ → ℕ

abbrev pub sized_at : ℕ → Block → ℕ
sized_at i b = if b.is_free then 0 else (if b.start_addr == i then b.size else 0)

abbrev pub live : Allocator → Live
live s i = total (sized_at i) s.pool.addr_list

-- The calls on this view.
abbrev pub set_live : ℕ → ℕ → Live → Live
set_live addr size m i = if i == addr then size else m i

-- The `size` bytes at `addr` are not in use.
abbrev pub IsUnused : ℕ → ℕ → Live → Type 0
IsUnused addr size m = (i : ℕ) → 0 < m i → (i + m i ≤ addr) ⊎ (addr + size ≤ i)

sized_at-OfUsed : (i : ℕ) → OfUsed (sized_at i)
sized_at-OfUsed i b free = rw free refl

sized-below : (i a e : ℕ) (bs : List Block) → Tiles a e bs → i < a → total (sized_at i) bs ≡ 0
sized-below i a e [] t lt = refl
sized-below i a e (b ∷ bs) t lt = ground (arith, sized-below i (a + b.size) e bs t.2)

-- Blocks in use do not overlap.
Tiles-disjoint :
    (x y a e : ℕ) (bs : List Block)
    → Tiles a e bs
    → x ≢ y
    → 0 < total (sized_at x) bs
    → 0 < total (sized_at y) bs
    → (x + total (sized_at x) bs ≤ y) ⊎ (y + total (sized_at y) bs ≤ x)
Tiles-disjoint x y a e [] t ne p q = absurd (omega arith)
Tiles-disjoint x y a e (b ∷ bs) t ne p q = ground (
  arith,
  Tiles-disjoint x y (a + b.size) e bs t.2 ne,
  sized-below x (a + b.size) e bs t.2,
  sized-below y (a + b.size) e bs t.2,
)

-- A used block that is counted lies in the range.
Tiles-within :
    (x a e : ℕ) (bs : List Block)
    → Tiles a e bs
    → 0 < total (sized_at x) bs
    → (a ≤ x) × (x + total (sized_at x) bs ≤ e)
Tiles-within x a e [] t p = absurd (omega arith)
Tiles-within x a e (b ∷ bs) t p = ground (
  arith,
  Tiles-within x (a + b.size) e bs t.2,
  sized-below x (a + b.size) e bs t.2,
  Tiles-le (a + b.size) e bs t.2,
)

-- Every used block of a state lies in the reservation, and no two overlap.
pub record AreApart (base : ℕ) (s : Allocator) : Type 0 where
  pub within : (x : ℕ) → 0 < live s x → (base ≤ x) × (x + live s x ≤ base + va_reservation_size)
  pub disjoint :
      (x y : ℕ) → x ≢ y → 0 < live s x → 0 < live s y → (x + live s x ≤ y) ⊎ (y + live s y ≤ x)

pub live-AreApart : {base : ℕ} {s : Allocator} → IsValid base s → AreApart base s
live-AreApart {base} {s} h =
    let limit : ℕ = base + s.total_va_size in
    record {
      within = λ x p.
          omega (arith, Tiles-within x base limit s.pool.addr_list h.blocks.tiles p, h.reserved);
      disjoint = λ x y ne p q. Tiles-disjoint x y base limit s.pool.addr_list h.blocks.tiles ne p q;
    }

-- Where a free block starts, no used one does.
free_not_live :
    (k i a e : ℕ) (bs : List Block)
    → Tiles a e bs
    → 0 < total (free_at k i) bs
    → total (sized_at i) bs ≡ 0
free_not_live k i a e [] t p = refl
free_not_live k i a e (b ∷ bs) t p = ground (
  arith,
  free_not_live k i (a + b.size) e bs t.2,
  sized-below i (a + b.size) e bs t.2,
  total-below k i (a + b.size) e bs t.2,
)

not_used-sized :
    (i : ℕ) (bs : List Block) → ((k : ℕ) → total (used_at k i) bs ≡ 0) → total (sized_at i) bs ≡ 0
not_used-sized i [] h = refl
not_used-sized i (b ∷ bs) h =
    ground (arith, h b.size, not_used-sized i bs (λ k. omega (arith, h k)))

-- What `default_alloc` does, as a caller sees it.
abbrev pub AllocLive : ℕ → ℕ → Allocator → ℕ × Allocator → Type 0
AllocLive base size s (addr, s') =
    IsValid base s'
    × (((addr ≡ 0) × (live s' ≡ live s))
        ⊎ ((0 < addr)
            × (live s' ≡ set_live addr size (live s))
            × IsUnused addr size (live s)
            × (base ≤ addr)
            × (addr + size ≤ base + s.total_va_size)))

module _ {base : ℕ} {s : Allocator} (h : IsValid base s) where
  Granted-live :
      (size addr : ℕ) (s' : Allocator)
      → IsValid base s'
      → s'.total_va_size ≡ s.total_va_size
      → Granted base size s addr s'
      → (live s' ≡ set_live addr size (live s)) × IsUnused addr size (live s)
  Granted-live size addr s' h' same g = (fun_ext changed, unused)
    where
      was_dead : live s addr ≡ 0
      was_dead =
          free_not_live g.fit addr base (base + s.total_va_size) s.pool.addr_list h.blocks.tiles
            g.was_free

      changed : (i : ℕ) → live s' i ≡ set_live addr size (live s) i
      changed i = ground (
        arith,
        g.only_new (sized_at i) (sized_at-OfUsed i),
        g.is_used,
        g.at_addr,
        g.of_size,
        was_dead,
      )

      unused : IsUnused addr size (live s)
      unused i p = ground (
        arith,
        g.positive,
        was_dead,
        changed i,
        changed addr,
        Tiles-disjoint i addr base (base + s'.total_va_size) s'.pool.addr_list h'.blocks.tiles,
      )

  -- `default_alloc` of any size on a valid state returns 0 and leaves the used blocks as they are,
  -- or returns an address in the reservation at which no byte of the `size` wanted was in use, and
  -- adds that block to the used ones and changes no other.
  pub alloc-AllocLive :
      (has_memory : Bool) (size : ℕ) → Returns (AllocLive base size s) (alloc has_memory size s)
  alloc-AllocLive has_memory size =
      Returns-imp (Outcome base has_memory size s) (AllocLive base size s) (alloc has_memory size s)
        (alloc-Outcome h has_memory size) result
    where
      result : (r : ℕ × Allocator) → Outcome base has_memory size s r → AllocLive base size s r
      result (addr, s') (h', same, inl refused) =
          (h', inl (refused.null, ap live refused.unchanged))
      result (addr, s') (h', same, inr granted) =
          let (changed, unused) = Granted-live size addr s' h' same granted in
          (h', inr (granted.positive.0, changed, unused, granted.within.0, granted.within.1))

  -- `default_free` of any address on a valid state leaves a valid state in which no used block
  -- starts there, and in which every other used block is as before.
  pub free-live :
      (addr : ℕ)
      → Returns (λ s'. IsValid base s' × (live s' ≡ set_live addr 0 (live s))) (free addr s)
  free-live addr =
      Returns-imp (FreeOutcome base addr s) _ (free addr s) (free-FreeOutcome h addr) result
    where
      unchanged :
          ((k : ℕ) → total (used_at k addr) s.pool.addr_list ≡ 0)
          → (i : ℕ) → live s i ≡ set_live addr 0 (live s) i
      unchanged none_used i = ground (arith, not_used-sized addr s.pool.addr_list none_used)

      result :
          (s' : Allocator)
          → FreeOutcome base addr s s'
          → IsValid base s' × (live s' ≡ set_live addr 0 (live s))
      result s' (inl (same, none_used)) =
          (subst (IsValid base) (sym same) h, ap live same ∙ fun_ext (unchanged none_used))
      result s' (inr r) = (
        r.valid,
        fun_ext λ i. ground (
          arith,
          r.only_gone (sized_at i) (sized_at-OfUsed i),
          r.was_used,
          r.at_addr,
          not_used-sized addr s'.pool.addr_list r.none_left,
        ),
      )
