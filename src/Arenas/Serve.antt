-- ===== src/Arenas/Serve.antt =====
-- `allocate_from_arena` of src/va_allocator_arenas.c on a valid state.
use mathlib.Core.Path.{subst}
use allocator_bench.Base.{
  ℕ, ◌+◌, ◌^◌, ◌≡◌, ◌⊎◌, inl, inr, refl, sym, ap, ◌∙◌, Bool, Option, none, some, List, [], ◌∷◌,
  arith, ok, Returns, Returns-bind, ◌==◌, if_cases,
}
use allocator_bench.Blocks.{u64}
use allocator_bench.Tracker.{Nodes, Tracker}
use allocator_bench.Arenas.{
  ArenaInfo, ArenaReservation, Arena, Allocator, Outside, allocate_from_reservation, allocate_loop,
  allocate_from_new, allocate_after_loop, create_reservation, allocate_from_arena,
}
use allocator_bench.Arenas.Spec.{
  place, IsReservation, AllReservations, InSome, sum_sizes, IsValid, IsFresh, AllReservations-imp,
  IsReservation-kept, node_of,
}
use allocator_bench.Arenas.Strategies.{
  HasRoom, IsAsked, IsUsable, Served, allocate_from_reservation-Served,
}
use allocator_bench.Arenas.Create.{Created, create_reservation-Created}

-- A list of reservations after an allocation of a size: 0, or room in one of them.
abbrev pub RoomIn : ℕ → ℕ → List ArenaReservation → Type 0
RoomIn size addr rs = (addr ≡ 0) ⊎ InSome size addr rs

abbrev LoopOutcome :
    (ArenaReservation → Type 0) → ℕ → List ArenaReservation → ℕ × List ArenaReservation → Type 0
LoopOutcome P size rs (addr, rs') =
    AllReservations P rs' × (sum_sizes rs' ≡ sum_sizes rs) × RoomIn size addr rs'

room_of :
    (size addr : ℕ) (r r' : ArenaReservation) (rs : List ArenaReservation)
    → place r' ≡ place r
    → HasRoom size (place r) addr
    → RoomIn size addr (r' ∷ rs)
room_of size addr r r' rs same (inl null) = inl null
room_of size addr r r' rs same (inr (pos, low, high)) = inr (
    inl
      (pos, rw (ap (λ p. p.addr) same) low, rw (ap (λ p. p.addr) same, ap (λ p. p.size) same) high))

allocate_loop-LoopOutcome :
    (nodes : Nodes) (tracker : Tracker) (out : Outside) (is_slab : Bool) (info : ArenaInfo)
    (size : ℕ) (rs : List ArenaReservation)
    → IsAsked is_slab info.max_per_alloc_size size
    → AllReservations (IsReservation nodes tracker is_slab info) rs
    → Returns
        (LoopOutcome (IsReservation nodes tracker is_slab info) size rs)
        (allocate_loop out is_slab size rs)
unfolding allocate_loop
allocate_loop-LoopOutcome nodes tracker out is_slab info size [] asked h = (tt, refl, inl refl)
allocate_loop-LoopOutcome nodes tracker out is_slab info size (r ∷ rs) asked h =
    let P : ArenaReservation → Type 0 = IsReservation nodes tracker is_slab info in
    Returns-bind (Served nodes tracker is_slab info size r) (LoopOutcome P size (r ∷ rs))
      (allocate_from_reservation out is_slab size r) _
      (allocate_from_reservation-Served nodes tracker out is_slab info size r asked h.0)
      (λ (addr, r') served.
        let same_size : r'.size ≡ r.size = ap (λ p. p.size) served.same in
        if_cases (Returns (LoopOutcome P size (r ∷ rs))) (addr == 0) _ (ok (addr, r' ∷ rs))
          (λ full.
            Returns-bind (LoopOutcome P size rs) (LoopOutcome P size (r ∷ rs))
              (allocate_loop out is_slab size rs) _
              (allocate_loop-LoopOutcome nodes tracker out is_slab info size rs asked h.1)
              (λ (found, rs') (all, sums, room). (
                (served.valid, all),
                omega (arith, sums, same_size),
                elim room [ inl null ↦ inl null | inr inside ↦ inr (inr inside) ],
              )))
          (λ given. (
            (served.valid, h.1),
            omega (arith, same_size),
            room_of size addr r r' rs served.same served.room,
          )))

-- What the call for an arena comes to, before the arena is written back.
pub record ArenaOutcome (size : ℕ) (arena : Arena) (s : Allocator) (result : ℕ × Arena × Allocator)
    : Type 0 where
  pub same : (result.1.info ≡ arena.info) × (result.1.is_slab ≡ arena.is_slab)
  pub all :
      AllReservations
        (IsReservation result.2.nodes result.2.res_tracker arena.is_slab arena.info)
        result.1.reservations
  pub keeps :
      (is_slab : Bool) (info : ArenaInfo) (r : ArenaReservation)
      → IsReservation s.nodes s.res_tracker is_slab info r
      → IsReservation result.2.nodes result.2.res_tracker is_slab info r
  pub tracker : allocator_bench.Tracker.Spec.IsValid result.2.nodes result.2.res_tracker
  pub span : (result.2.res_tracker.lo ≡ 0) × (result.2.res_tracker.after_hi ≡ 2 ^ 57)
  pub arenas : result.2.arenas ≡ s.arenas
  pub used : result.2.used_va_size ≡ s.used_va_size
  pub more : ℕ
  pub grown :
      (sum_sizes result.1.reservations ≡ sum_sizes arena.reservations + more)
      × (result.2.total_va_size ≡ u64 (s.total_va_size + more))
  pub room : RoomIn size result.0 result.1.reservations

-- The state after the loop, where no reservation is made.
unchanged :
    (size addr : ℕ) (arena : Arena) (s : Allocator) (rs' : List ArenaReservation)
    → IsValid s
    → AllReservations (IsReservation s.nodes s.res_tracker arena.is_slab arena.info) rs'
    → sum_sizes rs' ≡ sum_sizes arena.reservations
    → RoomIn size addr rs'
    → ArenaOutcome size arena s (addr, record arena { reservations = rs' }, s)
unchanged size addr arena s rs' v all sums room = record {
  same = (refl, refl);
  all = all;
  keeps = λ is_slab info r h. h;
  tracker = v.tracker;
  span = v.span;
  arenas = refl;
  used = refl;
  more = 0;
  grown = (omega (arith, sums), omega (arith, v.total));
  room = room;
}

allocate_from_new-ArenaOutcome :
    (out : Outside) (size : ℕ) (arena : Arena) (s : Allocator) (rs' : List ArenaReservation)
    → IsValid s
    → IsAsked arena.is_slab arena.info.max_per_alloc_size size
    → AllReservations (IsReservation s.nodes s.res_tracker arena.is_slab arena.info) rs'
    → sum_sizes rs' ≡ sum_sizes arena.reservations
    → (created : Option ArenaReservation × Allocator)
    → Created out (record arena { reservations = rs' }) s created
    → Returns
        (ArenaOutcome size arena s)
        (allocate_from_new out (record arena { reservations = rs' }) size created)
unfolding allocate_from_new
allocate_from_new-ArenaOutcome out size arena s rs' v asked all sums (none, s') e =
    subst (λ t. ArenaOutcome size arena s (0, record arena { reservations = rs' }, t)) (sym e)
      (unchanged size 0 arena s rs' v all sums (inl refl))
allocate_from_new-ArenaOutcome out size arena s rs' v asked all sums (some r, s')
      (valid, is_new, absent, memory, list, same_lo, same_hi, same_arenas, same_used, total) =
    let kept : (is_slab : Bool) (info : ArenaInfo) (r' : ArenaReservation)
        → IsReservation s.nodes s.res_tracker is_slab info r'
        → IsReservation s'.nodes s'.res_tracker is_slab info r' =
      λ is_slab info r'.
        IsReservation-kept s.nodes s.res_tracker r.id (node_of r) s'.nodes s'.res_tracker is_slab
          info r' absent memory list in
    Returns-bind (Served s'.nodes s'.res_tracker arena.is_slab arena.info size r)
      (ArenaOutcome size arena s) (allocate_from_reservation out arena.is_slab size r) _
      (allocate_from_reservation-Served s'.nodes s'.res_tracker out arena.is_slab arena.info size r
        asked is_new)
      (λ (addr, r') served.
        let same_size : r'.size ≡ arena.info.reservation_size = served.valid.whole in
        record {
          same = (refl, refl);
          all = (
            served.valid,
            AllReservations-imp (IsReservation s.nodes s.res_tracker arena.is_slab arena.info)
                (IsReservation s'.nodes s'.res_tracker arena.is_slab arena.info) rs'
                (kept arena.is_slab arena.info) all,
          );
          keeps = kept;
          tracker = valid;
          span = (same_lo ∙ v.span.0, same_hi ∙ v.span.1);
          arenas = same_arenas;
          used = same_used;
          more = arena.info.reservation_size;
          grown = (omega (arith, sums, same_size), total);
          room = room_of size addr r r' rs' served.same served.room;
        })

pub allocate_from_arena-ArenaOutcome :
    (out : Outside) (size : ℕ) (arena : Arena) (s : Allocator)
    → IsValid s
    → IsUsable arena.is_slab arena.info
    → IsAsked arena.is_slab arena.info.max_per_alloc_size size
    → AllReservations
        (IsReservation s.nodes s.res_tracker arena.is_slab arena.info)
        arena.reservations
    → IsFresh out s arena.info.reservation_size
    → Returns (ArenaOutcome size arena s) (allocate_from_arena out arena size s)
unfolding allocate_from_arena allocate_after_loop allocate_from_new
allocate_from_arena-ArenaOutcome out size arena s v usable asked rs fresh =
    Returns-bind
      (LoopOutcome (IsReservation s.nodes s.res_tracker arena.is_slab arena.info) size
        arena.reservations)
      (ArenaOutcome size arena s) (allocate_loop out arena.is_slab size arena.reservations) _
      (allocate_loop-LoopOutcome s.nodes s.res_tracker out arena.is_slab arena.info size
        arena.reservations asked rs)
      (λ (addr, rs') (all, sums, room).
        if_cases (Returns (ArenaOutcome size arena s)) (addr == 0) _ _
          (λ full.
            Returns-bind (Created out (record arena { reservations = rs' }) s)
              (ArenaOutcome size arena s)
              (create_reservation out (record arena { reservations = rs' }) s) _
              (create_reservation-Created out (record arena { reservations = rs' }) s v.tracker
                v.span usable fresh)
              (allocate_from_new-ArenaOutcome out size arena s rs' v asked all sums))
          (λ given. unchanged size addr arena s rs' v all sums room))
