-- ===== src/Arenas/Strategies.antt =====
-- The strategies of src/va_allocator_arenas.c: a new one, and allocation from a reservation by its own.
use mathlib.Core.Path.{subst}
use allocator_bench.Base.{
  ℕ, ◌+◌, ◌/◌, ◌^◌, ◌<◌, ◌≤◌, ◌≡◌, ◌⊎◌, inl, inr, refl, sym, ap, ◌∙◌, Bool, true, false, Option,
  none, some, arith, ok, Returns, Returns-bind, ◌>>=◌,
}
use allocator_bench.Bitvector.{Bitvector, create}
use allocator_bench.Objects.{
  Reservation, ObjAllocator, initialize_obj_allocator, allocate_from_obj_allocator,
}
use allocator_bench.Objects.Valid
use allocator_bench.Objects.Valid.{
  allocate-ObjOutcome, ObjOutcome, IsNew, initialize_obj_allocator-IsNew,
}
use allocator_bench.Slab.{SlabAllocator, with_bitmap, initialize_slab}
use allocator_bench.Slab.Valid.{IsSlab, allocate_from_slab-SlabOutcome}
use allocator_bench.Slab.Free.{initialize_slab-IsSlab}
use allocator_bench.Tracker.{Nodes, Tracker}
use allocator_bench.Arenas.{
  ArenaInfo, Strategy, slab, objects, ArenaReservation, Arena, Outside, as_objects,
  initialize_strategy, seen, sees, allocate_from_strategy, allocate_from_reservation,
}
use allocator_bench.Arenas.Spec.{place, IsStrategy, IsReservation}

-- What an allocation from a strategy returns: 0, or an address with room for the size.
abbrev pub HasRoom : ℕ → Reservation → ℕ → Type 0
HasRoom size r addr = (addr ≡ 0) ⊎ ((0 < addr) × (r.addr ≤ addr) × (addr + size ≤ r.addr + r.size))

-- The sizes that an arena of a kind is asked for.
abbrev pub IsAsked : Bool → ℕ → ℕ → Type 0
IsAsked true max size = size ≤ max
IsAsked false max size = (0 < size) × (size < 2 ^ 63)

abbrev pub StrategyOutcome : Bool → ℕ → ℕ → Reservation → ℕ × Strategy → Type 0
StrategyOutcome is_slab max size r (addr, strategy) =
    IsStrategy is_slab max r strategy × HasRoom size r addr

pub allocate_from_strategy-StrategyOutcome :
    (out : Outside) (is_slab : Bool) (id max size : ℕ) (r : Reservation) (strategy : Strategy)
    → r.node_addr ≡ r.addr
    → IsAsked is_slab max size
    → IsStrategy is_slab max r strategy
    → Returns
        (StrategyOutcome is_slab max size r)
        (allocate_from_strategy out is_slab id size strategy)
unfolding allocate_from_strategy
allocate_from_strategy-StrategyOutcome out true id max size r (slab sa) registered asked
      (b, valid, same) =
    elim (allocate_from_slab-SlabOutcome valid registered) [
      | inl (null, unchanged, _) ↦ (
        (b, subst (IsSlab r b) (sym unchanged) valid, ap (λ x. x.block_size) unchanged ∙ same),
        inl null,
      )
      | inr given ↦ (
        (given.after, given.valid, given.same_shape.0 ∙ same),
        inr (
          given.within.0,
          omega (arith, given.at_addr),
          omega (arith, given.within.1, same, asked),
        ),
      )
    ]
allocate_from_strategy-StrategyOutcome out false id max size r (objects oa) registered (pos, fits)
      valid =
    Returns-bind (ObjOutcome r (out.block id) size oa) (StrategyOutcome false max size r)
      (allocate_from_obj_allocator (out.block id) size oa) _
      (allocate-ObjOutcome valid (out.block id) size pos fits)
      (λ (addr, oa') (valid', outcome). (
        valid',
        elim outcome [
          | inl refused ↦ inl refused.null
          | inr granted ↦ inr (granted.within.0, granted.within.1, granted.within.2)
        ],
      ))
allocate_from_strategy-StrategyOutcome out true id max size r (objects oa) registered asked h =
    absurd h
allocate_from_strategy-StrategyOutcome out false id max size r (slab sa) registered asked h =
    absurd h

-- The reservation keeps its place and its node.
pub record Served (nodes : Nodes) (tracker : Tracker) (is_slab : Bool) (info : ArenaInfo) (size : ℕ)
    (r : ArenaReservation) (result : ℕ × ArenaReservation) : Type 0 where
  pub valid : IsReservation nodes tracker is_slab info result.1
  pub same : place result.1 ≡ place r
  pub room : HasRoom size (place r) result.0

pub allocate_from_reservation-Served :
    (nodes : Nodes) (tracker : Tracker) (out : Outside) (is_slab : Bool) (info : ArenaInfo)
    (size : ℕ) (r : ArenaReservation)
    → IsAsked is_slab info.max_per_alloc_size size
    → IsReservation nodes tracker is_slab info r
    → Returns
        (Served nodes tracker is_slab info size r)
        (allocate_from_reservation out is_slab size r)
unfolding allocate_from_reservation
allocate_from_reservation-Served nodes tracker out is_slab info size r asked h =
    Returns-bind (StrategyOutcome is_slab info.max_per_alloc_size size (place r))
      (Served nodes tracker is_slab info size r)
      (allocate_from_strategy out is_slab r.id size r.strategy) _
      (allocate_from_strategy-StrategyOutcome out is_slab r.id info.max_per_alloc_size size
        (place r) r.strategy refl asked h.strategy)
      (λ (addr, strategy) (valid, room). record {
        valid = record { whole = h.whole; memory = h.memory; listed = h.listed; strategy = valid };
        same = refl;
        room = room;
      })

-- The sizes in a table entry that a new strategy needs.
abbrev pub IsUsable : Bool → ArenaInfo → Type 0
IsUsable is_slab info =
    (0 < info.reservation_size)
    × (0 < info.max_per_alloc_size)
    × ((is_slab ≡ true) → info.max_per_alloc_size ≤ info.reservation_size)

abbrev pub Made : Outside → Arena → Option Strategy → Type 0
Made out arena none = ⊥
Made out arena (some strategy) =
    IsStrategy arena.is_slab arena.info.max_per_alloc_size
      (record { size = arena.info.reservation_size; addr = out.va; node_addr = out.va })
      (sees out.va strategy)

-- The blocks of a new slab have the size asked for.
abbrev block_size_or : ℕ → Option SlabAllocator → ℕ
block_size_or max none = max
block_size_or max (some sa) = sa.block_size

with_bitmap-block_size :
    (r : Reservation) (max n : ℕ) (bitmap : Option Bitvector)
    → block_size_or max (with_bitmap r max n bitmap) ≡ max
unfolding with_bitmap
with_bitmap-block_size r max n none = refl
with_bitmap-block_size r max n (some bitmap) = refl

initialize_slab-block_size :
    (r : Reservation) (max size : ℕ) (sa : SlabAllocator)
    → initialize_slab true true true r max size ≡ some sa
    → sa.block_size ≡ max
unfolding initialize_slab
initialize_slab-block_size r max size sa made =
    sym (ap (block_size_or max) made)
    ∙ with_bitmap-block_size r max (size / max) (create true true (size / max))

-- A strategy as made, and as it sees its registered reservation.
abbrev at_first : Outside → Arena → Reservation
at_first out arena = record { size = arena.info.reservation_size; addr = out.va; node_addr = 0 }

slab-seen :
    (va max : ℕ) (r : Reservation) (b : Bitvector) (sa : SlabAllocator)
    → IsSlab r b sa
    → sa.block_size ≡ max
    → IsStrategy true max (seen va r) (sees va (slab sa))
slab-seen va max r b sa valid same = (
  b,
  record {
    bitmap = valid.bitmap;
    vector = valid.vector;
    one_bit_each = valid.one_bit_each;
    counted = valid.counted;
    positive = valid.positive;
    parent = ap (seen va) valid.parent;
    room = valid.room;
    not_null = valid.not_null;
    bounded = valid.bounded;
  },
  same,
)

objects-seen :
    (va max : ℕ) (r : Reservation) (oa : ObjAllocator)
    → Valid.IsValid r oa
    → IsStrategy false max (seen va r) (sees va (objects oa))
objects-seen va max r oa valid = record {
  blocks = valid.blocks;
  parent = ap (seen va) valid.parent;
  not_null = valid.not_null;
}

pub initialize_strategy-Made :
    (out : Outside) (arena : Arena) (kind : Bool)
    → arena.is_slab ≡ kind
    → IsUsable arena.is_slab arena.info
    → (out.first ≡ true) × (out.second ≡ true) × (out.third ≡ true)
    → 0 < out.va
    → out.va + arena.info.reservation_size < 2 ^ 63
    → Returns (Made out arena) (initialize_strategy out arena)
unfolding initialize_strategy
initialize_strategy-Made out arena true k usable (e1, e2, e3) pos fits =
    let r : Reservation = at_first out arena in
    let max : ℕ = arena.info.max_per_alloc_size in
    let (b, sa, made, valid, _) = initialize_slab-IsSlab r max usable.1 (usable.2 k) pos fits in
    let run : initialize_strategy out arena ≡ ok (some (slab sa)) = rw (k, e1, e2, e3, made) refl in
    subst (Returns (Made out arena)) (sym run) (
      subst (λ kind. IsStrategy kind max (seen out.va r) (sees out.va (slab sa))) (sym k)
        (slab-seen out.va max r b sa valid
          (initialize_slab-block_size r max arena.info.reservation_size sa made)))
initialize_strategy-Made out arena false k usable (e1, e2, e3) pos fits =
    let r : Reservation = at_first out arena in
    let run : initialize_strategy out arena
        ≡ (initialize_obj_allocator true true r >>= λ made. ok (as_objects made)) =
      rw (k, e1, e2) refl in
    subst (Returns (Made out arena)) (sym run) (
      Returns-bind (IsNew r) (Made out arena) (initialize_obj_allocator true true r)
        (λ made. ok (as_objects made)) (initialize_obj_allocator-IsNew r pos usable.0 fits) new)
  where
    new :
        (made : Option ObjAllocator)
        → IsNew (at_first out arena) made
        → Returns (Made out arena) (ok (as_objects made))
    new none h = absurd h
    new (some oa) (valid, _) =
        subst
          (λ kind.
            IsStrategy kind arena.info.max_per_alloc_size (seen out.va (at_first out arena))
              (sees out.va (objects oa)))
          (sym k) (objects-seen out.va arena.info.max_per_alloc_size (at_first out arena) oa valid)
