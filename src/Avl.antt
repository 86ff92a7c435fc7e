-- ===== src/Avl.antt =====
-- utils/avl.c: a balanced search tree whose nodes hold their heights.
-- A node is named by its address, a number; `key` stands for what its key points to. The links
-- `left`, `right` and `parent` are the shape of a `Tree`; a place in a tree is the subtree there with
-- the frames that lead up from it by `parent`, the nearest first. The `compare` of a tree takes two
-- keys and returns a number of which the code reads the sign, which is an `Ordering` here.
pub mod Spec
pub mod Balance
pub mod Climb
pub mod Sorted
pub mod Insert
pub mod Remove
pub mod Search
pub mod Neighbours
pub mod Shape
mod Examples
use Prim.Native.Nat.{Ordering, lt, eq, gt}
use allocator_bench.Base.{
  ℕ, zero, suc, ◌+◌, ◌-◌, max, Bool, true, false, not, ◌&&◌, ◌||◌, Option, none, some, List, [],
  ◌∷◌, ◌++◌, leb, ◌==◌, if◌then◌else◌, Run, ok, stop, ◌>>=◌, ℤ, pos, negsuc, sub_ℕ, ◌==ℤ◌, leb_ℤ,
}

pub record Node : Type 0 where
  pub id : ℕ
  pub key : ℕ
  pub value : ℕ

-- The subtree that hangs at a `CUavlTreeNode *`, with the field `height` of each node.
pub data Tree : Type 0 where
  leaf : Tree
  node : Tree → Node → ℕ → Tree → Tree

-- One step up: from the left child, with the node and its right subtree, or from the right child.
pub data Frame : Type 0 where
  from_left : Node → ℕ → Tree → Frame
  from_right : Tree → Node → ℕ → Frame

pub record AvlTree : Type 0 where
  pub compare : ℕ → ℕ → Ordering
  pub root : Tree

abbrev pub plug : Frame → Tree → Tree
plug (from_left x h r) t = node t x h r
plug (from_right l x h) t = node l x h t

abbrev pub initialize : (ℕ → ℕ → Ordering) → AvlTree
initialize compare = record { compare = compare; root = leaf }

-- The code clears `compare` as well: the tree is not used before it is initialised again.
abbrev pub deinitialize : AvlTree → AvlTree
deinitialize tree = record tree { root = leaf }

abbrev pub get_height : Tree → ℕ
get_height leaf = 0
get_height (node l x h r) = h

-- With the assertion that the balance is at most 2.
unfoldable pub get_balance : Tree → Run ℤ
get_balance leaf = ok (pos 0)
get_balance (node l x h r) =
    let balance : ℤ = sub_ℕ (get_height l) (get_height r) in
    if leb_ℤ balance (pos 2) then ok balance else stop

-- A node whose height has been recalculated.
abbrev pub recalculated : Tree → Node → Tree → Tree
recalculated l x r = node l x (1 + max (get_height l) (get_height r)) r

unfoldable pub recalculate_height : Tree → Tree
recalculate_height leaf = leaf
recalculate_height (node l x h r) = recalculated l x r

-- Without the child that goes up, a rotation reads through a null pointer.
unfoldable pub rotate_right : Tree → Run Tree
rotate_right leaf = stop
rotate_right (node leaf x h r) = stop
rotate_right (node (node a y hy b) x h r) = ok (recalculated a y (recalculated b x r))

unfoldable pub rotate_left : Tree → Run Tree
rotate_left leaf = stop
rotate_left (node l x h leaf) = stop
rotate_left (node l x h (node a y hy b)) = ok (recalculated (recalculated l x a) y b)

-- The branch of the rebalancing loop for a balance of -2.
unfoldable pub lower_right : Bool → Tree → Node → ℕ → Tree → Run Tree
lower_right is_delete l x h r = get_balance r >>= λ right_balance.
    if right_balance ==ℤ negsuc 0
    then rotate_left (node l x h r)
    else if right_balance ==ℤ pos 0 && is_delete
    then rotate_left (node l x h r)
    else if right_balance ==ℤ pos 1
    then (rotate_right r >>= λ r'. rotate_left (node l x h r'))
    else ok (node l x h r)

-- The branch for a balance of 2.
unfoldable pub lower_left : Bool → Tree → Node → ℕ → Tree → Run Tree
lower_left is_delete l x h r = get_balance l >>= λ left_balance.
    if left_balance ==ℤ pos 1
    then rotate_right (node l x h r)
    else if left_balance ==ℤ pos 0 && is_delete
    then rotate_right (node l x h r)
    else if left_balance ==ℤ negsuc 0
    then (rotate_left l >>= λ l'. rotate_right (node l' x h r))
    else ok (node l x h r)

-- The body of the rebalancing loop at a node.
unfoldable pub rebalance_node : Bool → Tree → Run Tree
rebalance_node is_delete leaf = ok leaf
rebalance_node is_delete (node l x h r) = get_balance (node l x h r) >>= λ balance.
    (if balance ==ℤ negsuc 1
      then lower_right is_delete l x h r
      else if balance ==ℤ pos 2
      then lower_left is_delete l x h r
      else ok (node l x h r))
    >>= λ t. ok (recalculate_height t)

-- The loop from the parent of a subtree on, to the root of the tree.
unfoldable pub rebalance_above : Bool → Tree → List Frame → Run Tree
rebalance_above is_delete t [] = ok t
rebalance_above is_delete t (frame ∷ above) =
    rebalance_node is_delete (plug frame t) >>= λ t'. rebalance_above is_delete t' above

-- The loop from a node on.
unfoldable pub rebalance : Bool → Tree → List Frame → Run Tree
rebalance is_delete t above =
    rebalance_node is_delete t >>= λ t'. rebalance_above is_delete t' above

-- The search by a comparison that reads the node.
unfoldable pub find_with_node : (Node → Ordering) → Tree → Option Node
find_with_node compare leaf = none
find_with_node compare (node l x h r) = elim (compare x) [
  | eq ↦ some x
  | lt ↦ find_with_node compare l
  | gt ↦ find_with_node compare r
]

unfoldable pub find_node : (ℕ → Ordering) → Tree → Option Node
find_node compare leaf = none
find_node compare (node l x h r) = elim (compare x.key) [
  | eq ↦ some x
  | lt ↦ find_node compare l
  | gt ↦ find_node compare r
]

unfoldable pub find : AvlTree → ℕ → Option Node
find tree key = find_node (tree.compare key) tree.root

-- The loops of FindGEQ and FindLEQ, with `best`.
unfoldable pub find_geq_loop : (ℕ → Ordering) → Option Node → Tree → Option Node
find_geq_loop compare best leaf = best
find_geq_loop compare best (node l x h r) = elim (compare x.key) [
  | eq ↦ some x
  | lt ↦ find_geq_loop compare (some x) l
  | gt ↦ find_geq_loop compare best r
]

unfoldable pub find_geq : AvlTree → ℕ → Option Node
find_geq tree key = find_geq_loop (tree.compare key) none tree.root

unfoldable pub find_leq_loop : (ℕ → Ordering) → Option Node → Tree → Option Node
find_leq_loop compare best leaf = best
find_leq_loop compare best (node l x h r) = elim (compare x.key) [
  | eq ↦ some x
  | lt ↦ find_leq_loop compare best l
  | gt ↦ find_leq_loop compare (some x) r
]

unfoldable pub find_leq : AvlTree → ℕ → Option Node
find_leq tree key = find_leq_loop (tree.compare key) none tree.root

-- Where the descent for an insertion ends: at a node with the key, or at a free link.
pub data Place : Type 0 where
  taken : Node → Place
  vacant : List Frame → Place

unfoldable pub descend : (ℕ → Ordering) → Tree → List Frame → Place
descend compare leaf above = vacant above
descend compare (node l x h r) above = elim (compare x.key) [
  | eq ↦ taken x
  | lt ↦ descend compare l (from_left x h r ∷ above)
  | gt ↦ descend compare r (from_right l x h ∷ above)
]

-- The node is linked there, and the loop goes up from its parent.
unfoldable pub link_at : Node → AvlTree → Place → Run (Option Node × AvlTree)
link_at x tree (taken existing) = ok (some existing, tree)
link_at x tree (vacant above) =
    rebalance_above false (node leaf x 1 leaf) above >>= λ t. ok (none, record tree { root = t })

-- Whether the node with this address is in the tree.
unfoldable pub is_linked : ℕ → Tree → Bool
is_linked id leaf = false
is_linked id (node l x h r) = x.id == id || (is_linked id l || is_linked id r)

-- The existing node, or none once the new one is in the tree. The code clears the links of the node
-- given first: for a node that is in the tree it would cut off what hangs at it, and the model stops.
unfoldable pub insert_or_return_existing : AvlTree → Node → Run (Option Node × AvlTree)
insert_or_return_existing tree x =
    if is_linked x.id tree.root
    then stop
    else link_at x tree (descend (tree.compare x.key) tree.root [])

pub data Status : Type 0 where
  success : Status
  key_exists : Status

abbrev pub status_of : Option Node → Status
status_of none = success
status_of (some existing) = key_exists

unfoldable pub insert : AvlTree → Node → Run (Status × AvlTree)
insert tree x =
    insert_or_return_existing tree x >>= λ (existing, tree'). ok (status_of existing, tree')

abbrev pub first_some {ℓ} : {A : Type ℓ} → Option A → Option A → Option A
first_some none b = b
first_some (some a) b = some a

-- The place of the node with a given address: the callers hold pointers to their nodes.
unfoldable pub locate : ℕ → Tree → List Frame → Option (Tree × List Frame)
locate id leaf above = none
locate id (node l x h r) above =
    if x.id == id
    then some (node l x h r, above)
    else first_some (locate id l (from_left x h r ∷ above)) (locate id r (from_right l x h ∷ above))

-- The leftmost node from a node on: the node, its height and right subtree, and the frames above it.
unfoldable pub leftmost : Tree → Node → ℕ → Tree → List Frame → Node × ℕ × Tree × List Frame
leftmost leaf x h r above = (x, h, r, above)
leftmost (node a y hy b) x h r above = leftmost a y hy b (from_left x h r ∷ above)

-- The removal of the node that stands at a place. With two children its successor, which keeps its
-- height until the loop recalculates it, takes its place: the frames of the way down to the
-- successor then end in the successor's own.
unfoldable pub remove_at : Tree → List Frame → Run Tree
remove_at leaf above = ok leaf
remove_at (node leaf x h leaf) above = rebalance_above true leaf above
remove_at (node (node a y hy b) x h leaf) above = rebalance true (node a y hy b) above
remove_at (node leaf x h (node c z hz d)) above = rebalance true (node c z hz d) above
remove_at (node (node a y hy b) x h (node c z hz d)) above =
    let (successor, hs, rest, down) = leftmost c z hz d [] in
    rebalance_above true rest (down ++ (from_right (node a y hy b) successor hs ∷ above))

-- A node that is in no tree has null links, as `memset` or its removal has left them: with a null
-- `parent` the code takes `tree->root` for the link to it, which it then sets to null.
unfoldable pub remove_located : AvlTree → Option (Tree × List Frame) → Run AvlTree
remove_located tree none = ok (record tree { root = leaf })
remove_located tree (some (t, above)) =
    remove_at t above >>= λ root. ok (record tree { root = root })

unfoldable pub remove : AvlTree → ℕ → Run AvlTree
remove tree id = remove_located tree (locate id tree.root [])

unfoldable pub first_node : Tree → Node → Node
first_node leaf x = x
first_node (node l y h r) x = first_node l y

unfoldable pub last_node : Node → Tree → Node
last_node x leaf = x
last_node x (node l y h r) = last_node y r

-- The first ancestor that has the place in its left subtree, or in its right one.
unfoldable pub next_above : List Frame → Option Node
next_above [] = none
next_above (from_left x h r ∷ above) = some x
next_above (from_right l x h ∷ above) = next_above above

unfoldable pub previous_above : List Frame → Option Node
previous_above [] = none
previous_above (from_left x h r ∷ above) = previous_above above
previous_above (from_right l x h ∷ above) = some x

unfoldable pub successor_at : Tree → List Frame → Option Node
successor_at leaf above = none
successor_at (node l x h leaf) above = next_above above
successor_at (node l x h (node a y hy b)) above = some (first_node a y)

unfoldable pub predecessor_at : Tree → List Frame → Option Node
predecessor_at leaf above = none
predecessor_at (node leaf x h r) above = previous_above above
predecessor_at (node (node a y hy b) x h r) above = some (last_node y b)

unfoldable pub in_order_successor : AvlTree → ℕ → Option Node
in_order_successor tree id = elim (locate id tree.root []) [
  | none ↦ none
  | some (t, above) ↦ successor_at t above
]

unfoldable pub in_order_predecessor : AvlTree → ℕ → Option Node
in_order_predecessor tree id = elim (locate id tree.root []) [
  | none ↦ none
  | some (t, above) ↦ predecessor_at t above
]
