-- ===== src/Avl/Neighbours.antt =====
-- The nodes before and after a node of a tree of utils/avl.c.
use mathlib.Core.List.{append_assoc, append-nil}
use allocator_bench.Base.{
  ℕ, ◌≤◌, ◌≡◌, refl, sym, ap, ◌∙◌, Option, none, some, List, [], ◌∷◌, ◌++◌, arith, ◌==◌,
  if◌then◌else◌,
}
use allocator_bench.Avl.{
  Node, Tree, leaf, node, Frame, from_left, from_right, AvlTree, locate, first_node, last_node,
  next_above, previous_above, successor_at, predecessor_at, in_order_successor,
  in_order_predecessor,
}
use allocator_bench.Avl.Spec.{items, before, after}
use allocator_bench.Avl.Sorted.{IsValid, count_id, count_id-append}
use allocator_bench.Avl.Remove.{Located, locate-Located}

abbrev pub head_of : List Node → Option Node
head_of [] = none
head_of (x ∷ xs) = some x

abbrev pub last_of : Option Node → List Node → Option Node
last_of previous [] = previous
last_of previous (x ∷ xs) = last_of (some x) xs

-- The node after the one with an address, and the node before it.
abbrev pub next_of : ℕ → List Node → Option Node
next_of id [] = none
next_of id (x ∷ xs) = if x.id == id then head_of xs else next_of id xs

abbrev pub previous_of : Option Node → ℕ → List Node → Option Node
previous_of previous id [] = none
previous_of previous id (x ∷ xs) = if x.id == id then previous else previous_of (some x) id xs

next_of-found :
    (id : ℕ) (bs : List Node) (x : Node) (ys : List Node)
    → x.id ≡ id
    → count_id id bs ≡ 0
    → next_of id (bs ++ (x ∷ ys)) ≡ head_of ys
next_of-found id [] x ys hit absent = ground (arith, hit)
next_of-found id (b ∷ bs) x ys hit absent = ground (arith, next_of-found id bs x ys hit)

previous_of-found :
    (previous : Option Node) (id : ℕ) (bs : List Node) (x : Node) (ys : List Node)
    → x.id ≡ id
    → count_id id bs ≡ 0
    → previous_of previous id (bs ++ (x ∷ ys)) ≡ last_of previous bs
previous_of-found previous id [] x ys hit absent = ground (arith, hit)
previous_of-found previous id (b ∷ bs) x ys hit absent =
    ground (arith, previous_of-found (some b) id bs x ys hit)

last_of-append :
    (p : Option Node) (xs ys : List Node) → last_of p (xs ++ ys) ≡ last_of (last_of p xs) ys
last_of-append p [] ys = refl
last_of-append p (x ∷ xs) ys = last_of-append (some x) xs ys

first_node_head :
    (a : Tree) (y : Node) (ys : List Node) → head_of (items a ++ (y ∷ ys)) ≡ some (first_node a y)
unfolding first_node
first_node_head leaf y ys = refl
first_node_head (node l z h r) y ys =
    ap head_of (append_assoc (items l) (z ∷ items r) (y ∷ ys))
    ∙ first_node_head l z (items r ++ (y ∷ ys))

last_node_last :
    (p : Option Node) (y : Node) (b : Tree) → last_of p (y ∷ items b) ≡ some (last_node y b)
unfolding last_node
last_node_last p y leaf = refl
last_node_last p y (node l z h r) =
    last_of-append (some y) (items l) (z ∷ items r)
    ∙ last_node_last (last_of (some y) (items l)) z r

next_above_lem : (above : List Frame) → next_above above ≡ head_of (after above)
unfolding next_above
next_above_lem [] = refl
next_above_lem (from_left x h r ∷ above) = refl
next_above_lem (from_right l x h ∷ above) = next_above_lem above

previous_above_lem : (above : List Frame) → previous_above above ≡ last_of none (before above)
unfolding previous_above
previous_above_lem [] = refl
previous_above_lem (from_left x h r ∷ above) = previous_above_lem above
previous_above_lem (from_right l x h ∷ above) = sym (
    last_of-append none (before above) (items l ++ (x ∷ []))
    ∙ last_of-append (last_of none (before above)) (items l) (x ∷ []))

successor_at_lem :
    (l : Tree) (x : Node) (h : ℕ) (r : Tree) (above : List Frame)
    → successor_at (node l x h r) above ≡ head_of (items r ++ after above)
unfolding successor_at
successor_at_lem l x h leaf above = next_above_lem above
successor_at_lem l x h (node a y hy b) above = sym (
    ap head_of (append_assoc (items a) (y ∷ items b) (after above))
    ∙ first_node_head a y (items b ++ after above))

predecessor_at_lem :
    (l : Tree) (x : Node) (h : ℕ) (r : Tree) (above : List Frame)
    → predecessor_at (node l x h r) above ≡ last_of none (before above ++ items l)
unfolding predecessor_at
predecessor_at_lem leaf x h r above =
    previous_above_lem above ∙ sym (ap (last_of none) (append-nil (before above)))
predecessor_at_lem (node a y hy b) x h r above = sym (
    last_of-append none (before above) (items (node a y hy b))
    ∙ last_of-append (last_of none (before above)) (items a) (y ∷ items b)
    ∙ last_node_last (last_of (last_of none (before above)) (items a)) y b)

next_of-absent : (id : ℕ) (xs : List Node) → count_id id xs ≡ 0 → next_of id xs ≡ none
next_of-absent id [] h = refl
next_of-absent id (x ∷ xs) h = ground (arith, next_of-absent id xs)

previous_of-absent :
    (p : Option Node) (id : ℕ) (xs : List Node) → count_id id xs ≡ 0 → previous_of p id xs ≡ none
previous_of-absent p id [] h = refl
previous_of-absent p id (x ∷ xs) h = ground (arith, previous_of-absent (some x) id xs)

-- In a valid tree, and for an address that at most one node has, the successor and the predecessor
-- of the node with the address are its neighbours in the list of the nodes in the order of their
-- keys; there is none at an end of the list, or without such a node.
pub neighbours :
    (bound id : ℕ) (tree : AvlTree)
    → IsValid bound tree
    → count_id id (items tree.root) ≤ 1
    → (in_order_successor tree id ≡ next_of id (items tree.root))
      × (in_order_predecessor tree id ≡ previous_of none id (items tree.root))
unfolding in_order_successor in_order_predecessor
neighbours bound id tree v once =
    at_place (locate id tree.root []) (locate-Located id tree.root [] v.avl tt)
  where
    at_place :
        (place : Option (Tree × List Frame))
        → Located id tree.root [] place
        → ((elim place [ none ↦ none | some (t, above) ↦ successor_at t above ])
            ≡ next_of id (items tree.root))
          × ((elim place [ none ↦ none | some (t, above) ↦ predecessor_at t above ])
              ≡ previous_of none id (items tree.root))
    at_place none absent = (
      sym (next_of-absent id (items tree.root) absent),
      sym (previous_of-absent none id (items tree.root) absent),
    )
    at_place (some (leaf, above)) h = absurd h
    at_place (some (node l x h r, above)) (hit, avl, ctx, whole) =
        let bs : List Node = before above ++ items l in
        let ys : List Node = items r ++ after above in
        let list : items tree.root ≡ bs ++ (x ∷ ys) =
          sym (whole ∙ append-nil (items tree.root)) ∙ simp append_assoc in
        let counts : count_id id bs ≡ 0 =
          ground (arith, ap (count_id id) list, count_id-append id bs (x ∷ ys), hit) in
        (
          successor_at_lem l x h r above
              ∙ sym (ap (next_of id) list ∙ next_of-found id bs x ys hit counts),
          predecessor_at_lem l x h r above
              ∙ sym (ap (previous_of none id) list ∙ previous_of-found none id bs x ys hit counts),
        )
