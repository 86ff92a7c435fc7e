-- ===== src/Arenas/Alloc.antt =====
-- `arena_alloc` of src/va_allocator_arenas.c on a valid state.
use allocator_bench.Base.{ℕ, suc, ◌+◌, ◌≡◌, ◌⊎◌, List, [], ◌∷◌}
use allocator_bench.Blocks.{u64}
use allocator_bench.Arenas.{ArenaInfo, Allocator, is_arena_idx_slab}
use allocator_bench.Arenas.Spec.{InArenas, IsValid}
use allocator_bench.Arenas.Strategies.{IsUsable}

-- What `arena_alloc` comes to: the state is valid, and it returns 0, or the range asked for lies in a
-- reservation and its size is counted.
abbrev pub AllocOutcome : ℕ → Allocator → ℕ × Allocator → Type 0
AllocOutcome size s (addr, s') =
    IsValid s'
    × (((addr ≡ 0) × (s'.used_va_size ≡ s.used_va_size))
        ⊎ (InArenas size addr s'.arenas × (s'.used_va_size ≡ u64 (s.used_va_size + size))))

-- The classes have sizes that a new reservation can serve.
abbrev AllUsable : ℕ → List ArenaInfo → Type 0
AllUsable i [] = Unit
AllUsable i (info ∷ infos) = IsUsable (is_arena_idx_slab i) info × AllUsable (suc i) infos
