-- ===== src/Avl/Spec.antt =====
-- What a tree of utils/avl.c means: the list of its nodes in order; and when it is balanced.
use mathlib.Core.List.{append_assoc}
use allocator_bench.Base.{ℕ, ◌+◌, ◌≤◌, ◌≡◌, max, List, [], ◌∷◌, ◌++◌}
use allocator_bench.Avl.{Node, Tree, leaf, node, Frame, from_left, from_right, plug, get_height}

-- The nodes from left to right.
abbrev pub items : Tree → List Node
items leaf = []
items (node l x h r) = items l ++ (x ∷ items r)

-- The nodes before and after a place, from the frames above it.
abbrev pub before : List Frame → List Node
before [] = []
before (from_left x h r ∷ above) = before above
before (from_right l x h ∷ above) = before above ++ (items l ++ (x ∷ []))

abbrev pub after : List Frame → List Node
after [] = []
after (from_left x h r ∷ above) = x ∷ (items r ++ after above)
after (from_right l x h ∷ above) = after above

-- Each height is right, and the heights of two children differ by at most 1.
abbrev pub IsAvl : Tree → Type 0
IsAvl leaf = Unit
IsAvl (node l x h r) =
    (h ≡ 1 + max (get_height l) (get_height r))
    × (get_height l ≤ get_height r + 1)
    × (get_height r ≤ get_height l + 1)
    × IsAvl l
    × IsAvl r

-- The frames make an AVL tree round any AVL tree of height `n`, once the heights of their nodes are
-- recalculated: those that they hold are not read.
abbrev pub IsContext : ℕ → List Frame → Type 0
IsContext n [] = Unit
IsContext n (from_left x h r ∷ above) =
    (n ≤ get_height r + 1)
    × (get_height r ≤ n + 1)
    × IsAvl r
    × IsContext (1 + max n (get_height r)) above
IsContext n (from_right l x h ∷ above) =
    (get_height l ≤ n + 1)
    × (n ≤ get_height l + 1)
    × IsAvl l
    × IsContext (1 + max (get_height l) n) above

-- The subtree and the frames hold the nodes of the subtree one step up and the frames from there.
pub items-plug :
    (f : Frame) (t : Tree) (above : List Frame)
    → before above ++ (items (plug f t) ++ after above)
      ≡ before (f ∷ above) ++ (items t ++ after (f ∷ above))
items-plug (from_left x h r) t above = simp append_assoc
items-plug (from_right l x h) t above = simp append_assoc
