-- ===== src/Avl/Examples.antt =====
-- The AVL tree on concrete nodes, and its theorems at them.
use Prim.Native.Nat.{compare}
use allocator_bench.Base.{ℕ, ◌≡◌, refl, ◌+◌, none, some, arith, ok, stop, Returns}
use allocator_bench.Avl.{
  Node, Tree, leaf, node, AvlTree, find, find_geq, find_leq, insert_or_return_existing, insert,
  link_at, descend, rebalance_above, rebalance_node, rebalance, get_balance, lower_right,
  rotate_left, recalculate_height, success, key_exists, remove, remove_located, remove_at, locate,
  leftmost, in_order_successor, in_order_predecessor, is_linked,
}
use allocator_bench.Avl.Sorted.{IsValid}
use allocator_bench.Avl.Insert.{Inserted, insert_or_return_existing-Inserted}
use allocator_bench.Avl.Remove.{Removed, remove-Removed}
use allocator_bench.Avl.Search.{searches}
use allocator_bench.Avl.Neighbours.{neighbours}

abbrev item : ℕ → Node
item key = record { id = key + 100; key = key; value = key }

abbrev single : ℕ → Tree
single key = node leaf (item key) 1 leaf

-- The keys 1, 3, 5 and 7, with 3 at the root.
abbrev sample : AvlTree
sample = record {
  compare = compare;
  root = node (single 1) (item 3) 3 (node leaf (item 5) 2 (single 7));
}

-- The fourth node of this path makes the tree turn.
sample_built :
    insert
      (record {
        compare = compare;
        root = node (single 1) (item 3) 3 (node leaf (item 5) 2 (single 7));
      })
      (item 9)
    ≡ ok (
      success,
      record {
        compare = compare;
        root = node (single 1) (item 3) 3 (node (single 5) (item 7) 2 (single 9));
      },
    )
unfolding insert insert_or_return_existing is_linked descend link_at rebalance_above rebalance_node
    get_balance lower_right rotate_left recalculate_height
sample_built = refl

-- Another node with the key 5.
abbrev again : Node
again = record { id = 200; key = 5; value = 5 }

duplicate : insert sample again ≡ ok (key_exists, sample)
unfolding insert insert_or_return_existing is_linked descend link_at
duplicate = refl

-- A node in no tree empties the tree, and a node in the tree must not be inserted again.
-- The root goes and its successor takes its place; the only node on the left goes and the tree turns.
removals :
    (remove sample 103
      ≡ ok (record { compare = compare; root = node (single 1) (item 5) 2 (single 7) }))
    × (remove sample 101
        ≡ ok (record { compare = compare; root = node (single 3) (item 5) 2 (single 7) }))
    × (remove sample 999 ≡ ok (record { compare = compare; root = leaf }))
    × (insert sample (item 3) ≡ stop)
unfolding remove insert insert_or_return_existing is_linked locate remove_located remove_at leftmost
    rebalance rebalance_above rebalance_node get_balance lower_right rotate_left recalculate_height
removals = (refl, refl, refl, refl)

sample-IsValid : IsValid 10 sample
sample-IsValid = record {
  avl = omega arith;
  sorted = omega arith;
  bounded = omega arith;
  compares = λ a b p q. refl;
}

insert_or_return_existing-Inserted_example :
    Returns (Inserted 10 sample (item 9)) (insert_or_return_existing sample (item 9))
insert_or_return_existing-Inserted_example =
    insert_or_return_existing-Inserted 10 sample (item 9) sample-IsValid (omega arith) (omega arith)

remove-Removed_example : Returns (Removed 10 103 sample) (remove sample 103)
remove-Removed_example = remove-Removed 10 103 sample sample-IsValid (omega arith)

searches_example :
    (find sample 4 ≡ none)
    × (find_geq sample 4 ≡ some (item 5))
    × (find_leq sample 4 ≡ some (item 3))
searches_example = searches 10 4 sample sample-IsValid (omega arith)

neighbours_example :
    (in_order_successor sample 103 ≡ some (item 5))
    × (in_order_predecessor sample 103 ≡ some (item 1))
neighbours_example = neighbours 10 103 sample sample-IsValid (omega arith)
