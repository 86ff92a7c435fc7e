-- ===== src/Avl/Shape.antt =====
-- The height of a tree of utils/avl.c.
use allocator_bench.Base.{◌+◌, ◌/◌, ◌^◌, ◌≤◌, length}
use allocator_bench.Avl.{AvlTree, get_height}
use allocator_bench.Avl.Spec.{items}

-- A tree of height h holds at least 2^(h/2) - 1 nodes.
abbrev pub IsLow : AvlTree → Type 0
IsLow tree = 2 ^ (get_height tree.root / 2) ≤ length (items tree.root) + 1
