-- ===== src/Arenas/Free.antt =====
-- `arena_free` of src/va_allocator_arenas.c on a valid state.
use mathlib.Core.Path.{subst}
use allocator_bench.Base.{
  ℕ, suc, ◌+◌, ◌-◌, ◌^◌, ◌<◌, ◌≤◌, ◌≡◌, ◌≢◌, ◌⊎◌, inl, inr, Bool, Option, none, some, List, [], ◌∷◌,
  arith,
}
use allocator_bench.Avl.Spec.{items}
use allocator_bench.Avl.Sorted.{count_id}
use allocator_bench.Bitvector.{Bitvector}
use allocator_bench.Blocks.{u64}
use allocator_bench.Tracker
use allocator_bench.Tracker.{Nodes, Tracker, TrackerNode, end_of}
use allocator_bench.Arenas.{ArenaInfo, ArenaReservation, Arena, Allocator}
use allocator_bench.Arenas.Spec.{node_of, IsReservation, AllReservations, AreArenas}

-- An address lies in a reservation with this node.
abbrev Covers : ℕ → TrackerNode → Type 0
Covers addr n = (n.addr ≤ addr) × (addr < n.addr + n.size)

-- A list that no reservation is found in has none with the name.
abbrev NotIn : ℕ → List ArenaReservation → Type 0
NotIn id = AllReservations (λ r. r.id ≢ id)

abbrev Searched : ℕ → List ArenaReservation → Option (List ArenaReservation) → Type 0
Searched id rs none = NotIn id rs
Searched id rs (some rs') = Unit

-- An address lies in one of the reservations, whose node is `n`.
abbrev pub InReservation : TrackerNode → ℕ → List ArenaReservation → Type 0
InReservation n addr [] = ⊥
InReservation n addr (r ∷ rs) =
    ((node_of r ≡ n) × (r.addr ≤ addr) × (addr < r.addr + r.size)) ⊎ InReservation n addr rs

abbrev pub InArena : TrackerNode → ℕ → List Arena → Type 0
InArena n addr [] = ⊥
InArena n addr (a ∷ others) = InReservation n addr a.reservations ⊎ InArena n addr others

-- In a valid state the node of a reservation that covers an address is in the tracker.
listed_in :
    (nodes : Nodes) (tracker : Tracker) (is_slab : Bool) (info : ArenaInfo) (n : TrackerNode)
    (addr : ℕ) (rs : List ArenaReservation)
    → AllReservations (IsReservation nodes tracker is_slab info) rs
    → InReservation n addr rs
    → (nodes n.value ≡ n) × (0 < count_id n.value (items tracker.tree.root)) × Covers addr n
listed_in nodes tracker is_slab info n addr [] h inside = absurd inside
listed_in nodes tracker is_slab info n addr (r ∷ rs) h (inl (same, low, high)) =
    subst
      (λ m. (nodes m.value ≡ m) × (0 < count_id m.value (items tracker.tree.root)) × Covers addr m)
      same (h.0.memory, omega (arith, h.0.listed), (low, high))
listed_in nodes tracker is_slab info n addr (r ∷ rs) h (inr later) =
    listed_in nodes tracker is_slab info n addr rs h.1 later

listed :
    (nodes : Nodes) (tracker : Tracker) (i : ℕ) (n : TrackerNode) (addr : ℕ)
    (infos : List ArenaInfo) (arenas : List Arena)
    → AreArenas (IsReservation nodes tracker) i infos arenas
    → InArena n addr arenas
    → (nodes n.value ≡ n) × (0 < count_id n.value (items tracker.tree.root)) × Covers addr n
listed nodes tracker i n addr infos [] h inside = absurd inside
listed nodes tracker i n addr [] (a ∷ others) h inside = absurd h
listed nodes tracker i n addr (info ∷ infos) (a ∷ others) (_, _, all, h) (inl here) =
    listed_in nodes tracker a.is_slab a.info n addr a.reservations all here
listed nodes tracker i n addr (info ∷ infos) (a ∷ others) (_, _, all, h) (inr later) =
    listed nodes tracker (suc i) n addr infos others h later

-- What `arena_free` does to the counters.
pub record Counted (n : TrackerNode) (s s' : Allocator) : Type 0 where
  pub used : s'.used_va_size ≡ u64 (s.used_va_size + 2 ^ 64 - n.size)
  pub total : s'.total_va_size ≡ s.total_va_size
  pub nodes : s'.nodes ≡ s.nodes
  pub tracker : s'.res_tracker ≡ s.res_tracker
