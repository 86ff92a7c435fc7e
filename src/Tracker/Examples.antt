-- ===== src/Tracker/Examples.antt =====
-- A tracker of two ranges, and its theorems at it.
use allocator_bench.Base.{
  ◌^◌, ◌≡◌, refl, true, false, none, some, arith, ok, stop, ◌>>=◌, Returns, if◌then◌else◌, ◌==◌,
}
use allocator_bench.Avl
use allocator_bench.Avl.{leaf, node}
use allocator_bench.Avl.Spec.{items}
use allocator_bench.Avl.Sorted.{drop_id}
use allocator_bench.Tracker.{
  Nodes, Tracker, zeroed, entry, compare_addresses, tree_node, init, find_node,
  find_first_node_in_range, is_empty_for_range, node_next, node_get_next_with_limit,
  register_node_or_return_existing, register_node, unregister_node,
}
use allocator_bench.Tracker.Spec.{IsValid}
use allocator_bench.Tracker.Init.{compare_addresses_lem, init-IsValid}
use allocator_bench.Tracker.Lookup.{find_node_lem, ranges}
use allocator_bench.Tracker.Register.{
  Registered, register_node_or_return_existing-Registered, unregister_node-IsValid,
}
use allocator_bench.Tracker.Restore.{SameRanges, unregister_node-register_node}

-- The ranges [100, 150) of node 1 and [200, 260) of node 2.
abbrev memory : Nodes
memory id = if id == 1 then entry 100 50 7 else if id == 2 then entry 200 60 8 else zeroed

abbrev sample : Tracker
sample = record {
  tree = record {
    compare = compare_addresses;
    root = node (node leaf (tree_node 1 100) 1 leaf) (tree_node 2 200) 2 leaf;
  };
  lo = 64;
  after_hi = 4096;
}

lookups :
    (find_node memory sample 149 ≡ some 1)
    × (find_node memory sample 150 ≡ none)
    × (find_node memory sample 259 ≡ some 2)
    × (node_next memory sample 1 ≡ ok (some 2))
    × (node_next memory sample 3 ≡ stop)
    × (node_get_next_with_limit memory sample 1 201 false ≡ ok (some 2))
    × (node_get_next_with_limit memory sample 1 200 false ≡ ok none)
    × (node_get_next_with_limit memory sample 1 201 true ≡ ok none)
unfolding find_node Avl.find_with_node node_next node_get_next_with_limit Avl.in_order_successor
    Avl.locate Avl.successor_at Avl.next_above
lookups = (refl, refl, refl, refl, refl, refl, refl, refl)

refusals :
    (register_node memory sample 3 100 10 0 ≡ stop)
    × (register_node memory sample 3 4090 10 0 ≡ stop)
    × (unregister_node memory sample 3 ≡ stop)
unfolding register_node unregister_node register_node_or_return_existing
    Avl.insert_or_return_existing Avl.is_linked Avl.descend Avl.link_at
refusals = (refl, refl, refl)

sample-IsValid : IsValid memory sample
sample-IsValid = record {
  tree = record {
    avl = omega arith;
    sorted = omega arith;
    bounded = omega arith;
    compares = compare_addresses_lem;
  };
  inside = (
    record {
      key = refl;
      tracked = refl;
      not_empty = omega arith;
      above = omega arith;
      below = omega arith;
    },
    (
      record {
        key = refl;
        tracked = refl;
        not_empty = omega arith;
        above = omega arith;
        below = omega arith;
      },
      tt,
    ),
  );
  apart = omega arith;
  single = λ id. ground arith;
  top = omega arith;
}

new_tracker : Returns (IsValid memory) (init 0 (2 ^ 57))
new_tracker = init-IsValid memory 0 (2 ^ 57) (omega arith) (omega arith)

find_node_lem_example : find_node memory sample 120 ≡ some 1
find_node_lem_example = find_node_lem memory sample 120 sample-IsValid

ranges_example :
    (find_first_node_in_range memory sample 120 300 ≡ ok (some 2))
    × (is_empty_for_range memory sample 120 300 ≡ ok false)
ranges_example = ranges memory sample 120 300 sample-IsValid (omega arith) (omega arith)

between_is_empty : is_empty_for_range memory sample 150 200 ≡ ok true
between_is_empty = (ranges memory sample 150 200 sample-IsValid (omega arith) (omega arith)).1

register_node_or_return_existing-Registered_example :
    Returns
      (Registered memory sample 3 150 50 9)
      (register_node_or_return_existing memory sample 3 150 50 9)
register_node_or_return_existing-Registered_example =
    register_node_or_return_existing-Registered memory sample 3 150 50 9 sample-IsValid
      (omega arith) (omega arith) (omega arith) (omega arith) (λ _. between_is_empty)

unregister_node-IsValid_example :
    Returns
      (λ tracker'.
        IsValid memory tracker'
        × (items tracker'.tree.root ≡ drop_id 1 (items sample.tree.root))
        × (tracker'.lo ≡ 64)
        × (tracker'.after_hi ≡ 4096))
      (unregister_node memory sample 1)
unregister_node-IsValid_example =
    unregister_node-IsValid memory sample 1 sample-IsValid (omega arith)

unregister_node-register_node_example :
    Returns (SameRanges sample) (
      register_node memory sample 3 150 50 9 >>= λ (nodes, tracker).
      unregister_node nodes tracker 3)
unregister_node-register_node_example =
    unregister_node-register_node memory sample 3 150 50 9 sample-IsValid (omega arith)
      (omega arith) (omega arith) (omega arith) between_is_empty
