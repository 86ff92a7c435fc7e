-- ===== src/Arenas/Classes.antt =====
-- The classes of sizes of src/va_allocator_arenas.c.
use allocator_bench.Base.{ℕ, zero, suc, ◌+◌, ◌<◌, ◌≤◌, ◌⊎◌, List, [], ◌∷◌}
use allocator_bench.Arenas.{ArenaInfo}

-- The largest size of the class with a number, in a table.
abbrev pub max_at : ℕ → List ArenaInfo → ℕ
max_at i [] = 0
max_at zero (info ∷ infos) = info.max_per_alloc_size
max_at (suc i) (info ∷ infos) = max_at i infos

-- The size of its reservations.
abbrev pub reservation_at : ℕ → List ArenaInfo → ℕ
reservation_at i [] = 0
reservation_at zero (info ∷ infos) = info.reservation_size
reservation_at (suc i) (info ∷ infos) = reservation_at i infos

abbrev pub count : List ArenaInfo → ℕ
count [] = 0
count (info ∷ infos) = 1 + count infos

-- The size fits the class with a number, and no class before it.
pub record IsLeast (size : ℕ) (infos : List ArenaInfo) (k : ℕ) : Type 0 where
  pub in_table : k < count infos
  pub fits : size ≤ max_at k infos
  pub least : (j : ℕ) → j < k → max_at j infos < size

abbrev SomeFits : ℕ → List ArenaInfo → Type 0
SomeFits size [] = ⊥
SomeFits size (info ∷ infos) = (size ≤ info.max_per_alloc_size) ⊎ SomeFits size infos
