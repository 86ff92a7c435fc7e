-- ===== src/Tracker/New.antt =====
-- Registration in utils/addrtracker.c where the caller knows that no node is at the address.
use allocator_bench.Base.{
  ℕ, ◌+◌, ◌^◌, ◌<◌, ◌≤◌, ◌≡◌, ◌⊎◌, refl, ◌∙◌, true, Option, none, some, List, [], ◌∷◌, arith, ok,
  Returns, Returns-bind,
}
use allocator_bench.Avl
use allocator_bench.Avl.{Node}
use allocator_bench.Avl.Spec.{items}
use allocator_bench.Avl.Sorted.{AllNodes, insert_sorted, count_id, find_key}
use allocator_bench.Avl.Search.{searches}
use allocator_bench.Tracker.{
  Nodes, Tracker, store, is_empty_for_range, tree_node, entry, register_node_or_return_existing,
  register_node, assert_new,
}
use allocator_bench.Tracker.Spec.{end_at, IsInside, IsValid, all_apart}
use allocator_bench.Tracker.Lookup.{ranges}
use allocator_bench.Tracker.Register.{
  all_apart-AllNodes, Registered, register_node_or_return_existing-Registered,
}

none_at :
    (nodes : Nodes) (tracker : Tracker) (lo after_hi : ℕ) (xs : List Node)
    → lo < after_hi
    → AllNodes (IsInside nodes tracker) xs
    → AllNodes (λ y. (after_hi ≤ y.key) ⊎ (end_at nodes y ≤ lo)) xs
    → find_key lo xs ≡ none
none_at nodes tracker lo after_hi [] lt ins free = refl
none_at nodes tracker lo after_hi (x ∷ xs) lt ins free =
    ground (arith, none_at nodes tracker lo after_hi xs lt ins.1 free.1, free.0, ins.0.not_empty)

-- The node is in the memory and in the tree, and the tracker is valid.
pub record Entered (nodes : Nodes) (tracker : Tracker) (id addr size value : ℕ)
    (result : Nodes × Tracker) : Type 0 where
  pub valid : IsValid result.0 result.1
  pub memory : result.0 ≡ store nodes id (entry addr size value)
  pub list : items result.1.tree.root ≡ insert_sorted (tree_node id addr) (items tracker.tree.root)
  pub same_span : (result.1.lo ≡ tracker.lo) × (result.1.after_hi ≡ tracker.after_hi)

-- The registration of a new node for a range that is free fails no assertion.
pub register_node-Entered :
    (nodes : Nodes) (tracker : Tracker) (id addr size value : ℕ)
    → IsValid nodes tracker
    → count_id id (items tracker.tree.root) ≡ 0
    → 0 < size
    → tracker.lo ≤ addr
    → addr + size ≤ tracker.after_hi
    → is_empty_for_range nodes tracker addr (addr + size) ≡ ok true
    → Returns
        (Entered nodes tracker id addr size value)
        (register_node nodes tracker id addr size value)
unfolding register_node
register_node-Entered nodes tracker id addr size value v absent some_size low high free =
    Returns-bind (Registered nodes tracker id addr size value)
      (Entered nodes tracker id addr size value)
      (register_node_or_return_existing nodes tracker id addr size value) assert_new
      (register_node_or_return_existing-Registered nodes tracker id addr size value v absent
        some_size low high (λ _. free))
      entered
  where
    missing : Avl.find tracker.tree addr ≡ none
    missing =
        let checked =
          (ranges nodes tracker addr (addr + size) v (omega arith) (omega (arith, v.top))).1 in
        let all : all_apart nodes addr (addr + size) (items tracker.tree.root) ≡ true = cc in
        (searches (2 ^ 63) addr tracker.tree v.tree (omega (arith, v.top))).0
        ∙ none_at nodes tracker addr (addr + size) (items tracker.tree.root) (omega arith) v.inside
            (all_apart-AllNodes nodes tracker addr (addr + size) (items tracker.tree.root) v.top
              v.inside all)

    entered :
        (result : Option ℕ × Nodes × Tracker)
        → Registered nodes tracker id addr size value result
        → Returns (Entered nodes tracker id addr size value) (assert_new result)
    entered (none, nodes', tracker') (valid, memory, list, same_lo, same_hi) = record {
      valid = valid;
      memory = memory;
      list = list;
      same_span = (same_lo, same_hi);
    }
    entered (some existing, nodes', tracker') (valid, memory, same, found) =
        absurd (let known = missing in cc)
