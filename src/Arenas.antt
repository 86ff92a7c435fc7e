-- ===== src/Arenas.antt =====
-- The arenas of src/va_allocator_arenas.c: eight classes of sizes, each with a list of reservations,
-- which a slab or an object allocator cuts up, and a tracker from addresses to reservations.
-- A reservation is named by its address in memory, a number, and so is the tracker node that it
-- embeds; its `parent_arena` is the arena that has it in its list. `calloc`, `mmap` and `munmap` are
-- outside the code: what they return to a call is an argument, `Outside`.
pub mod Classes
pub mod Spec
pub mod Strategies
pub mod Create
pub mod Serve
pub mod Alloc
pub mod Init
pub mod Free
mod Examples
use allocator_bench.Base.{
  ℕ, zero, suc, ◌+◌, ◌-◌, ◌*◌, ◌^◌, Bool, true, false, Option, none, some, List, [], ◌∷◌, ◌++◌, ltb,
  leb, ◌==◌, if◌then◌else◌, Run, ok, stop, ◌>>=◌,
}
use allocator_bench.Blocks.{u64}
use allocator_bench.Objects.{
  Reservation, ObjAllocator, initialize_obj_allocator, allocate_from_obj_allocator,
  free_to_obj_allocator,
}
use allocator_bench.Slab.{
  SlabAllocator, initialize_slab, allocate_from_slab, free_to_slab, deinitialize_slab,
}
use allocator_bench.Tracker
use allocator_bench.Tracker.{Nodes, Tracker, TrackerNode, zeroed}

pub record ArenaInfo : Type 0 where
  pub max_per_alloc_size : ℕ
  pub reservation_size : ℕ

pub data Strategy : Type 0 where
  slab : SlabAllocator → Strategy
  objects : ObjAllocator → Strategy

-- `struct arena_reservation`; its `node` is in the memory of the tracker's nodes, and its `next` is
-- the rest of the list.
pub record ArenaReservation : Type 0 where
  pub id : ℕ
  pub size : ℕ
  pub addr : ℕ
  pub strategy : Strategy

pub record Arena : Type 0 where
  pub info : ArenaInfo
  pub idx : ℕ
  pub is_slab : Bool
  pub reservations : List ArenaReservation

pub record Allocator : Type 0 where
  pub arenas : List Arena
  pub total_va_size : ℕ
  pub used_va_size : ℕ
  pub res_tracker : Tracker
  pub nodes : Nodes

-- What the calls outside the code return: the memory for a reservation, if there is any; the address
-- that `mmap` returns, as a number; whether there is memory in each of the calls of `calloc` by the
-- initialisation of a strategy; and whether there is in the split of a block of a reservation.
pub record Outside : Type 0 where
  pub reservation : Option ℕ
  pub va : ℕ
  pub first : Bool
  pub second : Bool
  pub third : Bool
  pub block : ℕ → Bool

abbrev pub arena_info : ℕ → ℕ → ArenaInfo
arena_info max_per_alloc_size reservation_size = record {
  max_per_alloc_size = max_per_alloc_size;
  reservation_size = reservation_size;
}

abbrev pub arena_info_table : List ArenaInfo
arena_info_table =
    arena_info 512 (2 * 1024 * 1024)
    ∷ (arena_info 1024 (2 * 1024 * 1024)
        ∷ (arena_info 2048 (4 * 1024 * 1024)
            ∷ (arena_info 4096 (8 * 1024 * 1024)
                ∷ (arena_info (64 * 1024) (32 * 1024 * 1024)
                    ∷ (arena_info (2 * 1024 * 1024) (64 * 1024 * 1024)
                        ∷ (arena_info (32 * 1024 * 1024 * 1024) (512 * 1024 * 1024 * 1024)
                            ∷ (arena_info (2 ^ 64 - 1) (2 ^ 31) ∷ [])))))))

abbrev pub is_arena_idx_slab : ℕ → Bool
is_arena_idx_slab arena_idx = ltb arena_idx 3

-- The loop of `get_arena_idx_for_size` from the entry with number `i` on, with the assertion.
unfoldable pub first_class : ℕ → ℕ → List ArenaInfo → Run ℕ
first_class size i [] = stop
first_class size i (info ∷ infos) =
    let rest = first_class size (suc i) infos in
    if leb size info.max_per_alloc_size then ok i else rest

unfoldable pub get_arena_idx_for_size : ℕ → Run ℕ
get_arena_idx_for_size size = first_class size 0 arena_info_table

abbrev pub as_slab : Option SlabAllocator → Option Strategy
as_slab none = none
as_slab (some sa) = some (slab sa)

abbrev pub as_objects : Option ObjAllocator → Option Strategy
as_objects none = none
as_objects (some oa) = some (objects oa)

-- The strategy of a new reservation, whose tracker node `calloc` has cleared.
unfoldable pub initialize_strategy : Outside → Arena → Run (Option Strategy)
initialize_strategy out arena =
    let r : Reservation = record {
      size = arena.info.reservation_size;
      addr = out.va;
      node_addr = 0;
    } in
    if arena.is_slab
    then ok (
        as_slab (
          initialize_slab out.first out.second out.third r arena.info.max_per_alloc_size
            arena.info.reservation_size))
    else (initialize_obj_allocator out.first out.second r >>= λ made. ok (as_objects made))

-- The strategy points to its reservation, so it sees the address of the node once that is registered.
abbrev pub seen : ℕ → Reservation → Reservation
seen addr r = record r { node_addr = addr }

abbrev pub sees : ℕ → Strategy → Strategy
sees addr (slab sa) = slab (record sa { parent_reservation = seen addr sa.parent_reservation })
sees addr (objects oa) =
    objects (record oa { parent_reservation = seen addr oa.parent_reservation })

-- The end of `create_reservation`, from the strategy.
unfoldable pub enter_reservation :
    Outside → ℕ → Arena → Allocator → Option Strategy → Run (Option ArenaReservation × Allocator)
enter_reservation out id arena s none = ok (none, s)
enter_reservation out id arena s (some strategy) =
    Tracker.register_node s.nodes s.res_tracker id out.va arena.info.reservation_size id
    >>= λ (nodes, tracker). ok (
      some (record {
        id = id;
        size = arena.info.reservation_size;
        addr = out.va;
        strategy = sees out.va strategy;
      }),
      record s {
        nodes = nodes;
        res_tracker = tracker;
        total_va_size = u64 (s.total_va_size + arena.info.reservation_size);
      },
    )

unfoldable pub create_with :
    Outside → Arena → Allocator → Option ℕ → Run (Option ArenaReservation × Allocator)
create_with out arena s none = ok (none, s)
create_with out arena s (some id) =
    if out.va == 0
    then ok (none, s)
    else (initialize_strategy out arena >>= enter_reservation out id arena s)

unfoldable pub create_reservation :
    Outside → Arena → Allocator → Run (Option ArenaReservation × Allocator)
create_reservation out arena s = create_with out arena s out.reservation

-- The code casts the strategy to the type that the arena's `is_slab` says.
unfoldable pub allocate_from_strategy : Outside → Bool → ℕ → ℕ → Strategy → Run (ℕ × Strategy)
allocate_from_strategy out true id size (slab sa) =
    let (addr, sa') = allocate_from_slab sa in ok (addr, slab sa')
allocate_from_strategy out false id size (objects oa) =
    allocate_from_obj_allocator (out.block id) size oa >>= λ (addr, oa'). ok (addr, objects oa')
allocate_from_strategy out true id size (objects oa) = stop
allocate_from_strategy out false id size (slab sa) = stop

unfoldable pub allocate_from_reservation :
    Outside → Bool → ℕ → ArenaReservation → Run (ℕ × ArenaReservation)
allocate_from_reservation out is_slab size r =
    allocate_from_strategy out is_slab r.id size r.strategy >>= λ (addr, strategy).
    ok (addr, record r { strategy = strategy })

abbrev pub after_reservation :
    ArenaReservation → ℕ × List ArenaReservation → ℕ × List ArenaReservation
after_reservation r (addr, rs) = (addr, r ∷ rs)

-- The loop over the reservations: 0 if none of them has room.
unfoldable pub allocate_loop :
    Outside → Bool → ℕ → List ArenaReservation → Run (ℕ × List ArenaReservation)
allocate_loop out is_slab size [] = ok (0, [])
allocate_loop out is_slab size (r ∷ rs) =
    let rest = allocate_loop out is_slab size rs in
    allocate_from_reservation out is_slab size r >>= λ (addr, r').
    if addr == 0 then (rest >>= λ found. ok (after_reservation r' found)) else ok (addr, r' ∷ rs)

-- The last part of `allocate_from_arena`, with what `create_reservation` returns: the new
-- reservation becomes the head of the list, whether or not it has room.
unfoldable pub allocate_from_new :
    Outside → Arena → ℕ → Option ArenaReservation × Allocator → Run (ℕ × Arena × Allocator)
allocate_from_new out arena size (none, s) = ok (0, arena, s)
allocate_from_new out arena size (some r, s) =
    allocate_from_reservation out arena.is_slab size r >>= λ (addr, r').
    ok (addr, record arena { reservations = r' ∷ arena.reservations }, s)

unfoldable pub allocate_after_loop :
    Outside → Arena → ℕ → Allocator → ℕ × List ArenaReservation → Run (ℕ × Arena × Allocator)
allocate_after_loop out arena size s (addr, rs) =
    let arena' : Arena = record arena { reservations = rs } in
    if addr == 0
    then (create_reservation out arena' s >>= allocate_from_new out arena' size)
    else ok (addr, arena', s)

unfoldable pub allocate_from_arena : Outside → Arena → ℕ → Allocator → Run (ℕ × Arena × Allocator)
allocate_from_arena out arena size s =
    allocate_loop out arena.is_slab size arena.reservations >>= allocate_after_loop out arena size s

-- `arenas[i]`, and a write to it. The index is in bounds.
abbrev pub arena_at : ℕ → List Arena → Option Arena
arena_at i [] = none
arena_at zero (a ∷ others) = some a
arena_at (suc i) (a ∷ others) = arena_at i others

abbrev pub set_arena : ℕ → Arena → List Arena → List Arena
set_arena i a' [] = []
set_arena zero a' (a ∷ others) = a' ∷ others
set_arena (suc i) a' (a ∷ others) = a ∷ set_arena i a' others

abbrev pub account : ℕ → ℕ → ℕ × Arena × Allocator → ℕ × Allocator
account size i (addr, arena, s) = (
  addr,
  record s {
    arenas = set_arena i arena s.arenas;
    used_va_size = if addr == 0 then s.used_va_size else u64 (s.used_va_size + size);
  },
)

unfoldable pub alloc_in : Outside → ℕ → ℕ → Allocator → Option Arena → Run (ℕ × Allocator)
alloc_in out size i s none = stop
alloc_in out size i s (some arena) =
    allocate_from_arena out arena size s >>= λ result. ok (account size i result)

unfoldable pub arena_alloc : Outside → ℕ → Allocator → Run (ℕ × Allocator)
arena_alloc out size s =
    get_arena_idx_for_size size >>= λ i. alloc_in out size i s (arena_at i s.arenas)

unfoldable pub free_to_strategy : Bool → ℕ → Strategy → Run Strategy
free_to_strategy true addr (slab sa) = free_to_slab addr sa >>= λ sa'. ok (slab sa')
free_to_strategy false addr (objects oa) = free_to_obj_allocator addr oa >>= λ oa'. ok (objects oa')
free_to_strategy true addr (objects oa) = stop
free_to_strategy false addr (slab sa) = stop

-- The reservation that a tracker node's `value` points to, in the lists of the arenas. The outcome
-- is none where it is not in a list, and a pointer to no reservation is read in none of them.
unfoldable pub free_in_list :
    Bool → (id addr : ℕ) → List ArenaReservation → Run (Option (List ArenaReservation))
free_in_list is_slab id addr [] = ok none
free_in_list is_slab id addr (r ∷ rs) =
    let rest = free_in_list is_slab id addr rs in
    if r.id == id
    then (free_to_strategy is_slab addr r.strategy >>= λ strategy.
        ok (some (record r { strategy = strategy } ∷ rs)))
    else (rest >>= λ found. ok (elim found [ none ↦ none | some rs' ↦ some (r ∷ rs') ]))

unfoldable pub free_in_arenas : (id addr : ℕ) → List Arena → Run (List Arena)
free_in_arenas id addr [] = stop
free_in_arenas id addr (a ∷ others) =
    let rest = free_in_arenas id addr others in
    free_in_list a.is_slab id addr a.reservations >>= λ found. elim found [
      | none ↦ rest >>= λ others'. ok (a ∷ others')
      | some rs ↦ ok (record a { reservations = rs } ∷ others)
    ]

unfoldable pub free_found : ℕ → Allocator → Option ℕ → Run Allocator
free_found addr s none = stop
free_found addr s (some id) = free_in_arenas (s.nodes id).value addr s.arenas >>= λ arenas.
    ok (record s {
      arenas = arenas;
      used_va_size = u64 (s.used_va_size + 2 ^ 64 - (s.nodes id).size);
    })

unfoldable pub arena_free : ℕ → Allocator → Run Allocator
arena_free addr s = free_found addr s (Tracker.find_node s.nodes s.res_tracker addr)

abbrev pub arena_get_total_size : Allocator → ℕ
arena_get_total_size s = s.total_va_size

abbrev pub arena_get_used_size : Allocator → ℕ
arena_get_used_size s = s.used_va_size

-- `deinitialize_obj_allocator` only frees.
unfoldable pub deinitialize_strategy : Bool → Strategy → Run (Unit {0})
deinitialize_strategy true (slab sa) = deinitialize_slab sa
deinitialize_strategy false (objects oa) = ok tt
deinitialize_strategy true (objects oa) = stop
deinitialize_strategy false (slab sa) = stop

unfoldable pub destroy_reservation : Nodes → Bool → ArenaReservation → Tracker → Run Tracker
destroy_reservation nodes is_slab r tracker =
    Tracker.unregister_node nodes tracker r.id >>= λ tracker'.
    deinitialize_strategy is_slab r.strategy >>= λ done. ok tracker'

-- The ranges for `munmap`, in order, with the tracker.
unfoldable pub destroy_list :
    Nodes → Bool → List ArenaReservation → Tracker → Run (List (ℕ × ℕ) × Tracker)
destroy_list nodes is_slab [] tracker = ok ([], tracker)
destroy_list nodes is_slab (r ∷ rs) tracker =
    destroy_reservation nodes is_slab r tracker >>= λ tracker'.
    destroy_list nodes is_slab rs tracker' >>= λ (ranges, tracker'').
    ok ((r.addr, r.size) ∷ ranges, tracker'')

unfoldable pub destroy_arenas : Nodes → List Arena → Tracker → Run (List (ℕ × ℕ) × Tracker)
destroy_arenas nodes [] tracker = ok ([], tracker)
destroy_arenas nodes (a ∷ others) tracker =
    destroy_list nodes a.is_slab a.reservations tracker >>= λ (ranges, tracker').
    destroy_arenas nodes others tracker' >>= λ (more, tracker''). ok (ranges ++ more, tracker'')

unfoldable pub arena_destroy : Allocator → Run (List (ℕ × ℕ))
arena_destroy s = destroy_arenas s.nodes s.arenas s.res_tracker >>= λ (ranges, tracker). ok ranges

unfoldable pub new_arenas : ℕ → List ArenaInfo → List Arena
new_arenas i [] = []
new_arenas i (info ∷ infos) =
    record { info = info; idx = i; is_slab = is_arena_idx_slab i; reservations = [] }
    ∷ new_arenas (suc i) infos

-- Whether `calloc` has memory; none is NULL.
unfoldable pub init_arena_allocator : Bool → Run (Option Allocator)
init_arena_allocator false = ok none
init_arena_allocator true = Tracker.init 0 (2 ^ 57) >>= λ tracker. ok (
    some (record {
      arenas = new_arenas 0 arena_info_table;
      total_va_size = 0;
      used_va_size = 0;
      res_tracker = tracker;
      nodes = λ id. zeroed;
    }))
