-- ===== src/Arenas/Spec.antt =====
-- What holds of the arenas of src/va_allocator_arenas.c between two calls.
use mathlib.Core.Path.{subst}
use allocator_bench.Base.{
  ℕ, zero, suc, ◌+◌, ◌^◌, ◌<◌, ◌≤◌, ◌≡◌, ◌≢◌, ◌⊎◌, inl, inr, refl, sym, ap, ◌∙◌, Bool, true, false,
  some, List, [], ◌∷◌, arith, ok,
}
use allocator_bench.Avl.Spec.{items}
use allocator_bench.Avl.Sorted.{insert_sorted, count_id}
use allocator_bench.Bitvector.{Bitvector}
use allocator_bench.Blocks.{u64}
use allocator_bench.Objects.{Reservation}
use allocator_bench.Objects.Valid
use allocator_bench.Slab.Valid.{IsSlab}
use allocator_bench.Tracker.{
  Nodes, Tracker, TrackerNode, store, tree_node, entry, is_empty_for_range,
}
use allocator_bench.Tracker.Spec
use allocator_bench.Tracker.Spec.{store_other, count_id-insert_sorted}
use allocator_bench.Arenas.Classes.{max_at, reservation_at, count}
use allocator_bench.Arenas.{
  ArenaInfo, Strategy, slab, objects, ArenaReservation, Arena, Allocator, Outside,
  is_arena_idx_slab, arena_info_table, arena_at, set_arena,
}

-- A reservation as its strategy sees it.
abbrev pub place : ArenaReservation → Reservation
place r = record { size = r.size; addr = r.addr; node_addr = r.addr }

-- The strategy is of the arena's kind and valid, and a slab's blocks have the size of the class.
abbrev pub IsStrategy : Bool → ℕ → Reservation → Strategy → Type 0
IsStrategy true max r (slab sa) = (b : Bitvector) × IsSlab r b sa × (sa.block_size ≡ max)
IsStrategy false max r (objects oa) = Valid.IsValid r oa
IsStrategy true max r (objects oa) = ⊥
IsStrategy false max r (slab sa) = ⊥

abbrev pub node_of : ArenaReservation → TrackerNode
node_of r = entry r.addr r.size r.id

-- A reservation of an arena: it has the size of the class, its node is in the tracker and points back
-- to it, and its strategy is valid.
pub record IsReservation (nodes : Nodes) (tracker : Tracker) (is_slab : Bool) (info : ArenaInfo)
    (r : ArenaReservation) : Type 0 where
  pub whole : r.size ≡ info.reservation_size
  pub memory : nodes r.id ≡ node_of r
  pub listed : count_id r.id (items tracker.tree.root) ≡ 1
  pub strategy : IsStrategy is_slab info.max_per_alloc_size (place r) r.strategy

abbrev pub AllReservations : (ArenaReservation → Type 0) → List ArenaReservation → Type 0
AllReservations P [] = Unit
AllReservations P (r ∷ rs) = P r × AllReservations P rs

-- The arenas from number `i` on, with the entries of the table, whose reservations all satisfy `P`.
abbrev pub AreArenas :
    (Bool → ArenaInfo → ArenaReservation → Type 0) → ℕ → List ArenaInfo → List Arena → Type 0
AreArenas P i [] [] = Unit
AreArenas P i [] (a ∷ others) = ⊥
AreArenas P i (info ∷ infos) [] = ⊥
AreArenas P i (info ∷ infos) (a ∷ others) =
    (a.info ≡ info)
    × (a.is_slab ≡ is_arena_idx_slab i)
    × AllReservations (P a.is_slab a.info) a.reservations
    × AreArenas P (suc i) infos others

abbrev pub sum_sizes : List ArenaReservation → ℕ
sum_sizes [] = 0
sum_sizes (r ∷ rs) = r.size + sum_sizes rs

abbrev pub sum_arenas : List Arena → ℕ
sum_arenas [] = 0
sum_arenas (a ∷ others) = sum_sizes a.reservations + sum_arenas others

-- The range of `size` bytes at an address lies in one of the reservations.
abbrev pub InSome : ℕ → ℕ → List ArenaReservation → Type 0
InSome size addr [] = ⊥
InSome size addr (r ∷ rs) =
    ((0 < addr) × (r.addr ≤ addr) × (addr + size ≤ r.addr + r.size)) ⊎ InSome size addr rs

abbrev pub InArenas : ℕ → ℕ → List Arena → Type 0
InArenas size addr [] = ⊥
InArenas size addr (a ∷ others) = InSome size addr a.reservations ⊎ InArenas size addr others

pub record IsValid (s : Allocator) : Type 0 where
  pub tracker : Spec.IsValid s.nodes s.res_tracker
  pub span : (s.res_tracker.lo ≡ 0) × (s.res_tracker.after_hi ≡ 2 ^ 57)
  pub arenas : AreArenas (IsReservation s.nodes s.res_tracker) 0 arena_info_table s.arenas
  pub total : s.total_va_size ≡ u64 (sum_arenas s.arenas)

-- What `calloc` and `mmap` give for a reservation of a size: memory where no reservation is, and
-- a range of user addresses that is not in use; the strategy's calls of `calloc` have memory.
pub record IsFresh (out : Outside) (s : Allocator) (size : ℕ) : Type 0 where
  pub memory : (out.first ≡ true) × (out.second ≡ true) × (out.third ≡ true)
  pub user : (0 < out.va) × (out.va + size ≤ 2 ^ 57)
  pub unused : is_empty_for_range s.nodes s.res_tracker out.va (out.va + size) ≡ ok true
  pub new : (id : ℕ) → out.reservation ≡ some id → count_id id (items s.res_tracker.tree.root) ≡ 0

pub AllReservations-imp :
    (P Q : ArenaReservation → Type 0) (rs : List ArenaReservation)
    → ((r : ArenaReservation) → P r → Q r)
    → AllReservations P rs
    → AllReservations Q rs
AllReservations-imp P Q [] f h = tt
AllReservations-imp P Q (r ∷ rs) f h = (f r h.0, AllReservations-imp P Q rs f h.1)

pub AreArenas-imp :
    (P Q : Bool → ArenaInfo → ArenaReservation → Type 0) (i : ℕ) (infos : List ArenaInfo)
    (arenas : List Arena)
    → ((is_slab : Bool) (info : ArenaInfo) (r : ArenaReservation)
        → P is_slab info r
        → Q is_slab info r)
    → AreArenas P i infos arenas
    → AreArenas Q i infos arenas
AreArenas-imp P Q i [] [] f h = tt
AreArenas-imp P Q i [] (a ∷ others) f h = absurd h
AreArenas-imp P Q i (info ∷ infos) [] f h = absurd h
AreArenas-imp P Q i (info ∷ infos) (a ∷ others) f (e, k, rs, h) = (
  e,
  k,
  AllReservations-imp (P a.is_slab a.info) (Q a.is_slab a.info) a.reservations (f a.is_slab a.info)
      rs,
  AreArenas-imp P Q (suc i) infos others f h,
)

-- A reservation stays what it is when another one comes into the tracker.
pub IsReservation-kept :
    (nodes : Nodes) (tracker : Tracker) (id : ℕ) (node : TrackerNode) (nodes' : Nodes)
    (tracker' : Tracker) (is_slab : Bool) (info : ArenaInfo) (r : ArenaReservation)
    → count_id id (items tracker.tree.root) ≡ 0
    → nodes' ≡ store nodes id node
    → items tracker'.tree.root ≡ insert_sorted (tree_node id node.addr) (items tracker.tree.root)
    → IsReservation nodes tracker is_slab info r
    → IsReservation nodes' tracker' is_slab info r
IsReservation-kept nodes tracker id node nodes' tracker' is_slab info r absent memory list h =
    let other : r.id ≢ id = λ e.
      absurd (omega (arith, ap (λ i. count_id i (items tracker.tree.root)) e, absent, h.listed)) in
    record {
      whole = h.whole;
      memory = ap (λ f. f r.id) memory ∙ store_other nodes id r.id node other ∙ h.memory;
      listed = ground (
        arith,
        ap (count_id r.id) list,
        count_id-insert_sorted r.id (tree_node id node.addr) (items tracker.tree.root),
        other,
        h.listed,
      );
      strategy = h.strategy;
    }

-- The arena with a number, and the write of another one in its place.
pub record IsAt (P : Bool → ArenaInfo → ArenaReservation → Type 0) (i k : ℕ)
    (infos : List ArenaInfo) (arenas : List Arena) : Type 1 where
  pub arena : Arena
  pub at : arena_at k arenas ≡ some arena
  pub max : arena.info.max_per_alloc_size ≡ max_at k infos
  pub room : arena.info.reservation_size ≡ reservation_at k infos
  pub kind : arena.is_slab ≡ is_arena_idx_slab (i + k)
  pub all : AllReservations (P arena.is_slab arena.info) arena.reservations
  pub sum : sum_sizes arena.reservations ≤ sum_arenas arenas
  pub placed :
      (size addr : ℕ) (arena' : Arena)
      → InSome size addr arena'.reservations
      → InArenas size addr (set_arena k arena' arenas)
  pub put :
      (Q : Bool → ArenaInfo → ArenaReservation → Type 0)
      → ((is_slab : Bool) (info : ArenaInfo) (r : ArenaReservation)
          → P is_slab info r
          → Q is_slab info r)
      → (arena' : Arena) → arena'.info ≡ arena.info
      → arena'.is_slab ≡ arena.is_slab
      → AllReservations (Q arena.is_slab arena.info) arena'.reservations
      → AreArenas Q i infos (set_arena k arena' arenas)
        × (sum_arenas (set_arena k arena' arenas) + sum_sizes arena.reservations
            ≡ sum_arenas arenas + sum_sizes arena'.reservations)

pub AreArenas-IsAt :
    (P : Bool → ArenaInfo → ArenaReservation → Type 0) (i k : ℕ) (infos : List ArenaInfo)
    (arenas : List Arena)
    → k < count infos
    → AreArenas P i infos arenas
    → IsAt P i k infos arenas
AreArenas-IsAt P i k [] [] lt h = absurd (omega arith)
AreArenas-IsAt P i k [] (a ∷ others) lt h = absurd h
AreArenas-IsAt P i k (info ∷ infos) [] lt h = absurd h
AreArenas-IsAt P i zero (info ∷ infos) (a ∷ others) lt (e, kind, rs, h) = record {
  arena = a;
  at = refl;
  max = ap (λ x. x.max_per_alloc_size) e;
  room = ap (λ x. x.reservation_size) e;
  kind = kind ∙ ap is_arena_idx_slab (omega arith);
  all = rs;
  sum = omega arith;
  placed = λ size addr arena' inside. inl inside;
  put = λ Q f arena' same_info same_kind all. (
    (
      same_info ∙ e,
      same_kind ∙ kind,
      subst (λ b. AllReservations (Q b arena'.info) arena'.reservations) (sym same_kind)
          (subst (λ n. AllReservations (Q a.is_slab n) arena'.reservations) (sym same_info) all),
      AreArenas-imp P Q (suc i) infos others f h,
    ),
    omega arith,
  );
}
AreArenas-IsAt P i (suc k) (info ∷ infos) (a ∷ others) lt (e, kind, rs, h) =
    let later = AreArenas-IsAt P (suc i) k infos others (omega arith) h in
    record {
      arena = later.arena;
      at = later.at;
      max = later.max;
      room = later.room;
      kind = later.kind ∙ ap is_arena_idx_slab (omega arith);
      all = later.all;
      sum = omega (arith, later.sum);
      placed = λ size addr arena' inside. inr (later.placed size addr arena' inside);
      put = λ Q f arena' same_info same_kind all.
          let (put, sums) = later.put Q f arena' same_info same_kind all in
          (
            (
              e,
              kind,
              AllReservations-imp (P a.is_slab a.info) (Q a.is_slab a.info) a.reservations
                  (f a.is_slab a.info) rs,
              put,
            ),
            omega (arith, sums),
          );
    }
