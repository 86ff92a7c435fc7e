-- ===== src/Tracker/Restore.antt =====
-- A range of utils/addrtracker.c that is registered and then unregistered.
use allocator_bench.Base.{
  ℕ, ◌+◌, ◌<◌, ◌≤◌, ◌≡◌, refl, ap, ◌∙◌, true, List, [], ◌∷◌, arith, ==-eq, ok, ◌>>=◌, Returns,
  Returns-bind, Returns-imp,
}
use allocator_bench.Avl.{Node}
use allocator_bench.Avl.Spec.{items}
use allocator_bench.Avl.Sorted.{insert_sorted, drop_id, count_id, drop_id-absent}
use allocator_bench.Tracker.{
  Nodes, Tracker, is_empty_for_range, tree_node, register_node, unregister_node,
}
use allocator_bench.Tracker.Spec.{IsValid, count_id-insert_sorted}
use allocator_bench.Tracker.New.{Entered, register_node-Entered}
use allocator_bench.Tracker.Register.{unregister_node-IsValid}

drop_id-insert_sorted :
    (x : Node) (xs : List Node) → count_id x.id xs ≡ 0 → drop_id x.id (insert_sorted x xs) ≡ xs
drop_id-insert_sorted x [] absent = rw (==-eq x.id x.id refl) refl
drop_id-insert_sorted x (y ∷ ys) absent =
    ground (arith, drop_id-insert_sorted x ys, drop_id-absent x.id (y ∷ ys) absent)

-- The nodes of a tracker and its bounds are those of another.
abbrev pub SameRanges : Tracker → Tracker → Type 0
SameRanges tracker tracker' =
    (items tracker'.tree.root ≡ items tracker.tree.root)
    × (tracker'.lo ≡ tracker.lo)
    × (tracker'.after_hi ≡ tracker.after_hi)

-- A node that is not in a valid tracker, registered for a range that is not empty, lies inside the
-- tracker's and overlaps no other, and then unregistered, leaves the nodes of the tracker, in their
-- order, and its bounds as they were. Neither call fails an assertion or reads a null pointer.
pub unregister_node-register_node :
    (nodes : Nodes) (tracker : Tracker) (id addr size value : ℕ)
    → IsValid nodes tracker
    → count_id id (items tracker.tree.root) ≡ 0
    → 0 < size
    → tracker.lo ≤ addr
    → addr + size ≤ tracker.after_hi
    → is_empty_for_range nodes tracker addr (addr + size) ≡ ok true
    → Returns (SameRanges tracker) (
        register_node nodes tracker id addr size value >>= λ (nodes', tracker').
        unregister_node nodes' tracker' id)
unregister_node-register_node nodes tracker id addr size value v absent some_size low high free =
    Returns-bind (Entered nodes tracker id addr size value) (SameRanges tracker)
      (register_node nodes tracker id addr size value) _
      (register_node-Entered nodes tracker id addr size value v absent some_size low high free)
      (λ (nodes', tracker') entered.
        Returns-imp _ (SameRanges tracker) (unregister_node nodes' tracker' id)
          (unregister_node-IsValid nodes' tracker' id entered.valid (there tracker' entered.list))
          (λ tracker'' (valid, list, same_lo, same_hi). (
            list ∙ ap (drop_id id) entered.list ∙ drop_id-insert_sorted x xs absent,
            same_lo ∙ entered.same_span.0,
            same_hi ∙ entered.same_span.1,
          )))
  where
    x : Node
    x = tree_node id addr

    xs : List Node
    xs = items tracker.tree.root

    there :
        (tracker' : Tracker)
        → items tracker'.tree.root ≡ insert_sorted x xs
        → 0 < count_id id (items tracker'.tree.root)
    there tracker' list =
        ground (arith, ap (count_id id) list, count_id-insert_sorted id x xs, ==-eq id id refl)
