-- ===== src/Tracker.antt =====
-- utils/addrtracker.c: the ranges of addresses that are in use, in an AVL tree by their start.
-- A node is named by its address, a number, and `Nodes` is the memory that holds the nodes; the
-- node of the AVL tree that it embeds has the same name, and the key of that one points to its
-- `addr`. A node's field `tracker`, which the operations on nodes follow, is null or points to the
-- tracker that they take here: `has_tracker` says which. The locks are comments in the code.
pub mod Spec
pub mod Init
pub mod Lookup
pub mod Register
pub mod New
pub mod Restore
mod Examples
use Prim.Native.Nat.{Ordering, lt, eq, gt}
use allocator_bench.Base.{
  ℕ, ◌+◌, ◌-◌, ◌^◌, ◌%◌, Bool, true, false, not, ◌&&◌, ◌||◌, Option, none, some, ltb, leb, ◌==◌,
  if◌then◌else◌, Run, ok, stop, ◌>>=◌,
}
use allocator_bench.Blocks.{u64}
use allocator_bench.Avl
use allocator_bench.Avl.{AvlTree}

pub record TrackerNode : Type 0 where
  pub addr : ℕ
  pub size : ℕ
  pub value : ℕ
  pub has_tracker : Bool

abbrev pub Nodes : Type 0
Nodes = ℕ → TrackerNode

pub record Tracker : Type 0 where
  pub tree : AvlTree
  pub lo : ℕ
  pub after_hi : ℕ

abbrev pub store : Nodes → ℕ → TrackerNode → Nodes
store nodes id node i = if i == id then node else nodes i

-- What `memset` leaves.
abbrev pub zeroed : TrackerNode
zeroed = record { addr = 0; size = 0; value = 0; has_tracker = false }

-- The comparison of keys: the sign of the difference as a signed number of 64 bits.
abbrev pub compare_addresses : ℕ → ℕ → Ordering
compare_addresses a b =
    let diff : ℕ = u64 (a + 2 ^ 64 - b) in
    if leb (2 ^ 63) diff then lt else if diff == 0 then eq else gt

abbrev pub end_of : TrackerNode → ℕ
end_of node = u64 (node.addr + node.size)

abbrev pub compare_node : Nodes → ℕ → Avl.Node → Ordering
compare_node nodes addr x =
    if leb (nodes x.id).addr addr && ltb addr (end_of (nodes x.id))
    then eq
    else if ltb addr (nodes x.id).addr
    then lt
    else gt

unfoldable pub init : (lo after_hi : ℕ) → Run Tracker
init lo after_hi =
    if ltb lo after_hi
    then ok (record { tree = Avl.initialize compare_addresses; lo = lo; after_hi = after_hi })
    else stop

abbrev pub deinit : Tracker → Tracker
deinit tracker = record { tree = Avl.deinitialize tracker.tree; lo = 0; after_hi = 0 }

-- The name of the node that embeds a node of the AVL tree.
abbrev pub to_tracker : Option Avl.Node → Option ℕ
to_tracker none = none
to_tracker (some x) = some x.id

unfoldable pub find_node : Nodes → Tracker → ℕ → Option ℕ
find_node nodes tracker addr =
    to_tracker (Avl.find_with_node (compare_node nodes addr) tracker.tree.root)

abbrev pub within : Nodes → ℕ → Option ℕ → Option ℕ
within nodes after_hi none = none
within nodes after_hi (some id) = if ltb after_hi (end_of (nodes id)) then none else some id

unfoldable pub find_first_node_in_range : Nodes → Tracker → (lo after_hi : ℕ) → Run (Option ℕ)
find_first_node_in_range nodes tracker lo after_hi =
    if ltb lo after_hi
    then ok (within nodes after_hi (to_tracker (Avl.find_geq tracker.tree lo)))
    else stop

abbrev pub ends_by : Nodes → ℕ → Option ℕ → Bool
ends_by nodes lo none = true
ends_by nodes lo (some id) = leb (end_of (nodes id)) lo

unfoldable pub is_empty_for_range : Nodes → Tracker → (lo after_hi : ℕ) → Run Bool
is_empty_for_range nodes tracker lo after_hi =
    if ltb lo after_hi
    then ok (ends_by nodes lo (to_tracker (Avl.find_leq tracker.tree (after_hi - 1))))
    else stop

-- Through a null `tracker` the code would read.
unfoldable pub node_next : Nodes → Tracker → ℕ → Run (Option ℕ)
node_next nodes tracker id =
    if (nodes id).has_tracker
    then ok (to_tracker (Avl.in_order_successor tracker.tree id))
    else stop

abbrev pub limited : Nodes → ℕ → ℕ → Bool → Option ℕ → Option ℕ
limited nodes id starts_before adjacent_only none = none
limited nodes id starts_before adjacent_only (some next) =
    if leb starts_before (nodes next).addr
      || (adjacent_only && not ((nodes next).addr == end_of (nodes id)))
    then none
    else some next

unfoldable pub node_get_next_with_limit : Nodes → Tracker → ℕ → ℕ → Bool → Run (Option ℕ)
node_get_next_with_limit nodes tracker id starts_before adjacent_only =
    if (nodes id).has_tracker
    then ok (
        limited nodes id starts_before adjacent_only
          (to_tracker (Avl.in_order_successor tracker.tree id)))
    else stop

-- The node that a tree of the tracker's gets: its key points to the address, and its value is NULL.
abbrev pub tree_node : ℕ → ℕ → Avl.Node
tree_node id addr = record { id = id; key = addr; value = 0 }

-- What a registration writes into the node.
abbrev pub entry : (addr size value : ℕ) → TrackerNode
entry addr size value = record { addr = addr; size = size; value = value; has_tracker = true }

-- The end of a registration: a node that was not needed is cleared.
abbrev pub registered : Nodes → Tracker → ℕ → Option Avl.Node × AvlTree → Option ℕ × Nodes × Tracker
registered nodes tracker id (none, tree) = (none, nodes, record tracker { tree = tree })
registered nodes tracker id (some x, tree) =
    (some x.id, store nodes id zeroed, record tracker { tree = tree })

unfoldable pub register_node_or_return_existing :
    Nodes → Tracker → (id addr size value : ℕ) → Run (Option ℕ × Nodes × Tracker)
register_node_or_return_existing nodes tracker id addr size value =
    if leb tracker.lo addr && leb (u64 (addr + size)) tracker.after_hi
    then (Avl.insert_or_return_existing tracker.tree (tree_node id addr) >>= λ result.
        ok (registered (store nodes id (entry addr size value)) tracker id result))
    else stop

-- The assertion that no node is at the address.
abbrev pub assert_new : Option ℕ × Nodes × Tracker → Run (Nodes × Tracker)
assert_new (none, nodes, tracker) = ok (nodes, tracker)
assert_new (some existing, nodes, tracker) = stop

unfoldable pub register_node : Nodes → Tracker → (id addr size value : ℕ) → Run (Nodes × Tracker)
register_node nodes tracker id addr size value =
    register_node_or_return_existing nodes tracker id addr size value >>= assert_new

unfoldable pub unregister_node : Nodes → Tracker → ℕ → Run Tracker
unregister_node nodes tracker id =
    if (nodes id).has_tracker
    then (Avl.remove tracker.tree id >>= λ tree. ok (record tracker { tree = tree }))
    else stop

abbrev pub is_initialized : Tracker → Bool
is_initialized tracker = not (tracker.after_hi == 0)
