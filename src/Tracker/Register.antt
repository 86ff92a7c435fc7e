-- ===== src/Tracker/Register.antt =====
-- The changes of utils/addrtracker.c: a node comes into a tracker, or goes.
use mathlib.Core.Path.{subst}
use allocator_bench.Base.{
  ℕ, ◌+◌, ◌^◌, ◌<◌, ◌≤◌, ◌≡◌, ◌≢◌, ◌⊎◌, inl, inr, refl, sym, ap, ◌∙◌, true, Option, none, some,
  List, [], ◌∷◌, arith, leb, ◌&&◌, Bool-cases, eq_or_ne, ok, Returns, Returns-bind,
}
use allocator_bench.Avl
use allocator_bench.Avl.{Node, AvlTree}
use allocator_bench.Avl.Spec.{items}
use allocator_bench.Avl.Sorted
use allocator_bench.Avl.Sorted.{
  AllNodes, AllNodes-imp, AllNodes-both, AllNodes-drop_id, IsSorted, insert_sorted, drop_id,
  count_id, find_key,
}
use allocator_bench.Avl.Search.{searches}
use allocator_bench.Avl.Insert.{Inserted, insert_or_return_existing-Inserted}
use allocator_bench.Avl.Remove.{Removed, left_after-there, remove-Removed}
use allocator_bench.Tracker.{
  TrackerNode, Nodes, Tracker, store, zeroed, end_of, to_tracker, is_empty_for_range, tree_node,
  entry, registered, register_node_or_return_existing, unregister_node,
}
use allocator_bench.Tracker.Spec.{
  has_tracker-inside, end_at, IsInside, IsValid, all_apart, end_of_lem, drop_id-IsApart,
  count_id-drop_id, AllNodes-insert_sorted, count_id-insert_sorted, absent-AreOther, store_here,
  store_other, store-IsApart, store-IsInside, insert_sorted-IsApart,
}
use allocator_bench.Tracker.Lookup.{ranges}

pub all_apart-AllNodes :
    (nodes : Nodes) (tracker : Tracker) (lo after_hi : ℕ) (xs : List Node)
    → tracker.after_hi ≤ 2 ^ 63
    → AllNodes (IsInside nodes tracker) xs
    → all_apart nodes lo after_hi xs ≡ true
    → AllNodes (λ y. (after_hi ≤ y.key) ⊎ (end_at nodes y ≤ lo)) xs
all_apart-AllNodes nodes tracker lo after_hi [] top ins e = tt
all_apart-AllNodes nodes tracker lo after_hi (x ∷ xs) top ins e =
    let x_key : (nodes x.id).addr ≡ x.key = ins.0.key in
    let ends = end_of_lem nodes tracker x top ins.0 in
    (
      elim (Bool-cases (leb after_hi (nodes x.id).addr)) [
        | inl past ↦ inl (ground arith)
        | inr reach ↦ inr (ground arith)
      ],
      all_apart-AllNodes nodes tracker lo after_hi xs top ins.1 (ground arith),
    )

-- A tracker with other contents of the memory of a node that is not in it.
store-IsValid :
    (nodes : Nodes) (tracker : Tracker) (id : ℕ) (node : TrackerNode)
    → count_id id (items tracker.tree.root) ≡ 0
    → IsValid nodes tracker
    → IsValid (store nodes id node) tracker
store-IsValid nodes tracker id node absent v =
    let others = absent-AreOther id (items tracker.tree.root) absent in
    record {
      tree = v.tree;
      inside =
          store-IsInside nodes id node tracker tracker (items tracker.tree.root) refl refl others
            v.inside;
      apart = store-IsApart nodes id node (items tracker.tree.root) others v.apart;
      single = v.single;
      top = v.top;
    }

one_more :
    (id : ℕ) (x : Node) (xs : List Node)
    → count_id x.id xs ≡ 0
    → count_id id xs ≤ 1
    → count_id id (insert_sorted x xs) ≤ 1
one_more id x xs absent single = elim (eq_or_ne x.id id) [
  | inl e ↦ ground (arith, count_id-insert_sorted id x xs, e, ap (λ i. count_id i xs) e, absent)
  | inr ne ↦ ground (arith, count_id-insert_sorted id x xs, ne)
]

-- A tracker with one node more, whose range is apart from the others.
insert-IsValid :
    (nodes : Nodes) (tracker : Tracker) (tree : AvlTree) (x : Node)
    → IsValid nodes tracker
    → Sorted.IsValid (2 ^ 63) tree
    → items tree.root ≡ insert_sorted x (items tracker.tree.root)
    → count_id x.id (items tracker.tree.root) ≡ 0
    → IsInside nodes tracker x
    → AllNodes (λ y. (end_at nodes x ≤ y.key) ⊎ (end_at nodes y ≤ x.key)) (items tracker.tree.root)
    → IsValid nodes (record tracker { tree = tree })
insert-IsValid nodes tracker tree x v valid same absent inside free =
    let xs : List Node = items tracker.tree.root in
    let tracker' : Tracker = record tracker { tree = tree } in
    record {
      tree = valid;
      inside = rw same (
          AllNodes-imp (IsInside nodes tracker) (IsInside nodes tracker') (insert_sorted x xs)
            (λ y i. record {
              key = i.key;
              tracked = i.tracked;
              not_empty = i.not_empty;
              above = i.above;
              below = i.below;
            })
            (AllNodes-insert_sorted (IsInside nodes tracker) x xs inside v.inside));
      apart =
          rw same (insert_sorted-IsApart nodes x xs inside.not_empty free v.tree.sorted v.apart);
      single =
          λ id. subst (λ ns. count_id id ns ≤ 1) (sym same) (one_more id x xs absent (v.single id));
      top = v.top;
    }

-- A range in which the tracker finds no node, once a new node holds it in the memory.
is_empty_for_range-AllNodes :
    (nodes : Nodes) (tracker : Tracker) (id addr : ℕ) (node : TrackerNode)
    → IsValid nodes tracker
    → count_id id (items tracker.tree.root) ≡ 0
    → 0 < node.size
    → addr + node.size ≤ tracker.after_hi
    → is_empty_for_range nodes tracker addr (addr + node.size) ≡ ok true
    → AllNodes
        (λ y.
          (end_at (store nodes id node) (tree_node id addr) ≤ y.key)
          ⊎ (end_at (store nodes id node) y ≤ addr))
        (items tracker.tree.root)
is_empty_for_range-AllNodes nodes tracker id addr node v absent some_size high apart =
    let xs : List Node = items tracker.tree.root in
    let last : ℕ = addr + node.size in
    let checked = (ranges nodes tracker addr last v (omega arith) (omega (arith, v.top))).1 in
    let all : all_apart nodes addr last xs ≡ true = cc in
    AllNodes-both (λ y. y.id ≢ id) (λ y. (last ≤ y.key) ⊎ (end_at nodes y ≤ addr))
      (λ y.
        (end_at (store nodes id node) (tree_node id addr) ≤ y.key)
        ⊎ (end_at (store nodes id node) y ≤ addr))
      xs (λ y ne apart. rw (store_here nodes id node, store_other nodes id y.id node ne) apart)
      (absent-AreOther id xs absent)
      (all_apart-AllNodes nodes tracker addr last xs v.top v.inside all)

abbrev pub Registered :
    Nodes → Tracker → (id addr size value : ℕ) → Option ℕ × Nodes × Tracker → Type 0
Registered nodes tracker id addr size value (none, nodes', tracker') =
    IsValid nodes' tracker'
    × (nodes' ≡ store nodes id (entry addr size value))
    × (items tracker'.tree.root ≡ insert_sorted (tree_node id addr) (items tracker.tree.root))
    × (tracker'.lo ≡ tracker.lo)
    × (tracker'.after_hi ≡ tracker.after_hi)
Registered nodes tracker id addr size value (some existing, nodes', tracker') =
    IsValid nodes' tracker'
    × (nodes' id ≡ zeroed)
    × (tracker' ≡ tracker)
    × (to_tracker (Avl.find tracker.tree addr) ≡ some existing)

-- Registration in a valid tracker of a node that is not in it, for a range inside the tracker's that
-- is not empty and, unless a node stands at its start, does not overlap another, fails no assertion.
-- Either the node at the start is returned, the new node is cleared and the tracker is as before, or
-- the new node holds its range and stands in its place; the tracker is valid again.
pub register_node_or_return_existing-Registered :
    (nodes : Nodes) (tracker : Tracker) (id addr size value : ℕ)
    → IsValid nodes tracker
    → count_id id (items tracker.tree.root) ≡ 0
    → 0 < size
    → tracker.lo ≤ addr
    → addr + size ≤ tracker.after_hi
    → (Avl.find tracker.tree addr ≡ none
        → is_empty_for_range nodes tracker addr (addr + size) ≡ ok true)
    → Returns
        (Registered nodes tracker id addr size value)
        (register_node_or_return_existing nodes tracker id addr size value)
unfolding register_node_or_return_existing
register_node_or_return_existing-Registered nodes tracker id addr size value v absent some_size low
      high free =
    let inside : (leb tracker.lo addr && leb (end_of new_node) tracker.after_hi) ≡ true =
      ground (arith, v.top) in
    rw inside (
      Returns-bind (Inserted (2 ^ 63) tracker.tree (tree_node id addr))
        (Registered nodes tracker id addr size value)
        (Avl.insert_or_return_existing tracker.tree (tree_node id addr)) _
        (insert_or_return_existing-Inserted (2 ^ 63) tracker.tree (tree_node id addr) v.tree
          (omega (arith, v.top)) absent)
        placed)
  where
    new_node : TrackerNode
    new_node = entry addr size value

    found : Avl.find tracker.tree addr ≡ find_key addr (items tracker.tree.root)
    found = (searches (2 ^ 63) addr tracker.tree v.tree (omega (arith, v.top))).0

    kept : (node : TrackerNode) → IsValid (store nodes id node) tracker
    kept node = store-IsValid nodes tracker id node absent v

    placed :
        (result : Option Node × AvlTree)
        → Inserted (2 ^ 63) tracker.tree (tree_node id addr) result
        → Registered nodes tracker id addr size value
            (registered (store nodes id new_node) tracker id result)
    placed (some existing, tree) (same, e) = (
      subst (λ t. IsValid (store (store nodes id new_node) id zeroed) (record tracker { tree = t }))
          (sym same)
          (store-IsValid (store nodes id new_node) tracker id zeroed absent (kept new_node)),
      store_here (store nodes id new_node) id zeroed,
      ap (λ t. record tracker { tree = t }) same,
      ap to_tracker (found ∙ e),
    )
    placed (none, tree) (valid, missing, list, _) =
        let here = store_here nodes id new_node in
        let apart : is_empty_for_range nodes tracker addr (addr + size) ≡ ok true =
          free (found ∙ missing) in
        (
          insert-IsValid (store nodes id new_node) tracker tree (tree_node id addr) (kept new_node)
              valid list absent
              (record {
                key = ap TrackerNode.addr here;
                tracked = ap TrackerNode.has_tracker here;
                not_empty = rw here some_size;
                above = low;
                below = rw here high;
              })
              (is_empty_for_range-AllNodes nodes tracker id addr new_node v absent some_size high
                apart),
          refl,
          list,
          refl,
          refl,
        )

-- Unregistration, in a valid tracker, of a node that is registered in it fails no assertion and reads
-- no null pointer. The tracker is valid again, its bounds are the same, and its nodes are those of
-- before without that one.
pub unregister_node-IsValid :
    (nodes : Nodes) (tracker : Tracker) (id : ℕ)
    → IsValid nodes tracker
    → 0 < count_id id (items tracker.tree.root)
    → Returns
        (λ tracker'.
          IsValid nodes tracker'
          × (items tracker'.tree.root ≡ drop_id id (items tracker.tree.root))
          × (tracker'.lo ≡ tracker.lo)
          × (tracker'.after_hi ≡ tracker.after_hi))
        (unregister_node nodes tracker id)
unfolding unregister_node
unregister_node-IsValid nodes tracker id v there =
    rw (has_tracker-inside nodes tracker id (items tracker.tree.root) v.inside there) (
      Returns-bind (Removed (2 ^ 63) id tracker.tree) _ (Avl.remove tracker.tree id) _
        (remove-Removed (2 ^ 63) id tracker.tree v.tree (v.single id))
        (λ tree removed.
          let list : items tree.root ≡ drop_id id (items tracker.tree.root) =
            removed.nodes ∙ left_after-there id (items tracker.tree.root) there in
          let xs : List Node = items tracker.tree.root in
          let tracker' : Tracker = record tracker { tree = tree } in
          (
            record {
              tree = removed.valid;
              inside = rw list (
                  AllNodes-imp (IsInside nodes tracker) (IsInside nodes tracker') (drop_id id xs)
                    (λ y i. record {
                      key = i.key;
                      tracked = i.tracked;
                      not_empty = i.not_empty;
                      above = i.above;
                      below = i.below;
                    })
                    (AllNodes-drop_id (IsInside nodes tracker) id xs v.inside));
              apart = rw list (drop_id-IsApart nodes id xs v.apart);
              single = λ other.
                  subst (λ ns. count_id other ns ≤ 1) (sym list)
                    (omega (arith, count_id-drop_id other id xs, v.single other));
              top = v.top;
            },
            list,
            refl,
            refl,
          )))
