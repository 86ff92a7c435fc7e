-- ===== src/Arenas/Init.antt =====
-- A new allocator of src/va_allocator_arenas.c.
use allocator_bench.Base.{◌^◌, ◌≡◌, refl, true, Option, none, some, arith, Returns}
use allocator_bench.Tracker
use allocator_bench.Tracker.{Tracker, zeroed}
use allocator_bench.Tracker.Init.{init-IsValid}
use allocator_bench.Arenas.{Allocator, new_arenas, init_arena_allocator}
use allocator_bench.Arenas.Spec.{IsValid}

abbrev pub IsNew : Option Allocator → Type 0
IsNew none = ⊥
IsNew (some s) = IsValid s × (s.total_va_size ≡ 0) × (s.used_va_size ≡ 0)

-- Where `calloc` has memory, `init_arena_allocator` returns a valid allocator with nothing reserved
-- and nothing in use.
pub init_arena_allocator-IsNew : Returns IsNew (init_arena_allocator true)
unfolding init_arena_allocator new_arenas Tracker.init
init_arena_allocator-IsNew = (
  record {
    tracker = init-IsValid (λ id. zeroed) 0 (2 ^ 57) (omega arith) (omega arith);
    span = (refl, refl);
    arenas = (
      refl,
      refl,
      tt,
      (
        refl,
        refl,
        tt,
        (
          refl,
          refl,
          tt,
          (
            refl,
            refl,
            tt,
            (refl, refl, tt, (refl, refl, tt, (refl, refl, tt, (refl, refl, tt, tt)))),
          ),
        ),
      ),
    );
    total = refl;
  },
  refl,
  refl,
)
