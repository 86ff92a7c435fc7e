-- ===== src/Arenas/Create.antt =====
-- New reservations of src/va_allocator_arenas.c.
use allocator_bench.Base.{
  ℕ, ◌+◌, ◌^◌, ◌≡◌, refl, ap, ◌∙◌, Option, none, some, arith, Returns, Returns-bind, ◌==◌, if_cases,
  ==-eq,
}
use allocator_bench.Avl.Spec.{items}
use allocator_bench.Avl.Sorted.{insert_sorted, count_id}
use allocator_bench.Blocks.{u64}
use allocator_bench.Tracker
use allocator_bench.Tracker.{Nodes, Tracker, TrackerNode, store, tree_node}
use allocator_bench.Tracker.Spec
use allocator_bench.Tracker.Spec.{store_here, count_id-insert_sorted}
use allocator_bench.Tracker.New.{Entered, register_node-Entered}
use allocator_bench.Arenas.{
  Strategy, ArenaReservation, Arena, Allocator, Outside, initialize_strategy, enter_reservation,
  create_with, create_reservation,
}
use allocator_bench.Arenas.Spec.{IsReservation, IsFresh, node_of}
use allocator_bench.Arenas.Strategies.{IsUsable, Made, initialize_strategy-Made}

-- What `create_reservation` comes to: nothing new, or a valid new reservation in the tracker.
abbrev pub Created : Outside → Arena → Allocator → Option ArenaReservation × Allocator → Type 0
Created out arena s (none, s') = s' ≡ s
Created out arena s (some r, s') =
    Spec.IsValid s'.nodes s'.res_tracker
    × IsReservation s'.nodes s'.res_tracker arena.is_slab arena.info r
    × (count_id r.id (items s.res_tracker.tree.root) ≡ 0)
    × (s'.nodes ≡ store s.nodes r.id (node_of r))
    × (items s'.res_tracker.tree.root
        ≡ insert_sorted (tree_node r.id r.addr) (items s.res_tracker.tree.root))
    × (s'.res_tracker.lo ≡ s.res_tracker.lo)
    × (s'.res_tracker.after_hi ≡ s.res_tracker.after_hi)
    × (s'.arenas ≡ s.arenas)
    × (s'.used_va_size ≡ s.used_va_size)
    × (s'.total_va_size ≡ u64 (s.total_va_size + arena.info.reservation_size))

create_with-Created :
    (out : Outside) (arena : Arena) (s : Allocator) (memory : Option ℕ)
    → out.reservation ≡ memory
    → Spec.IsValid s.nodes s.res_tracker
    → (s.res_tracker.lo ≡ 0) × (s.res_tracker.after_hi ≡ 2 ^ 57)
    → IsUsable arena.is_slab arena.info
    → IsFresh out s arena.info.reservation_size
    → Returns (Created out arena s) (create_with out arena s memory)
unfolding create_with enter_reservation
create_with-Created out arena s none e v span usable fresh = refl
create_with-Created out arena s (some id) e v span usable fresh =
    if_cases (Returns (Created out arena s)) (out.va == 0) _ _ (λ null. refl)
      (λ not_null.
        Returns-bind (Made out arena) (Created out arena s) (initialize_strategy out arena) _
          (initialize_strategy-Made out arena arena.is_slab refl usable fresh.memory fresh.user.0
            (omega (arith, fresh.user.1)))
          made)
  where
    made :
        (strategy : Option Strategy)
        → Made out arena strategy
        → Returns (Created out arena s) (enter_reservation out id arena s strategy)
    made none h = absurd h
    made (some strategy) h =
        Returns-bind (Entered s.nodes s.res_tracker id out.va arena.info.reservation_size id)
          (Created out arena s)
          (Tracker.register_node s.nodes s.res_tracker id out.va arena.info.reservation_size id) _
          (register_node-Entered s.nodes s.res_tracker id out.va arena.info.reservation_size id v
            (fresh.new id e) usable.0 (omega (arith, span.0)) (omega (arith, span.1, fresh.user.1))
            fresh.unused)
          (λ (nodes, tracker) entered. (
            entered.valid,
            record {
              whole = refl;
              memory = ap (λ f. f id) entered.memory ∙ store_here s.nodes id _;
              listed = ground (
                arith,
                ap (count_id id) entered.list,
                count_id-insert_sorted id (tree_node id out.va) (items s.res_tracker.tree.root),
                fresh.new id e,
                ==-eq id id refl,
              );
              strategy = h;
            },
            fresh.new id e,
            entered.memory,
            entered.list,
            entered.same_span.0,
            entered.same_span.1,
            refl,
            refl,
            refl,
          ))

pub create_reservation-Created :
    (out : Outside) (arena : Arena) (s : Allocator)
    → Spec.IsValid s.nodes s.res_tracker
    → (s.res_tracker.lo ≡ 0) × (s.res_tracker.after_hi ≡ 2 ^ 57)
    → IsUsable arena.is_slab arena.info
    → IsFresh out s arena.info.reservation_size
    → Returns (Created out arena s) (create_reservation out arena s)
unfolding create_reservation
create_reservation-Created out arena s = create_with-Created out arena s out.reservation refl
