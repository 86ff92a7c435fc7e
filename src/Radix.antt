-- ===== src/Radix.antt =====
-- utils/radix.c: a radix tree whose every node also holds a key smaller than all keys below it.
-- A node is named by its address, a number. The node that hangs in the tree (the primary one)
-- and the ring of further nodes with the same key (`next`, `prev`) are one `Ring`: `first` is the
-- primary node, `rest` the others in the order of `next`. `child[0]` and `child[1]` are the two
-- subtrees, and a null child is `leaf`. A node that is not in a tree has no links here, so that the
-- four assertions of `radixTreeReplaceNode`, that the node coming in has none, are not represented. The fields `parent` and `parent_to_self_ptr` hold where a
-- node hangs; here that is the position in the tree.
pub mod Candidates
pub mod Digits
mod Examples
pub mod Find
pub mod Insert
pub mod Remove
pub mod Spec
use allocator_bench.Base.{
  ℕ, zero, suc, ◌^◌, Bool, true, false, not, Option, none, some, List, [], ◌∷◌, ◌++◌, ◌||◌, ◌&&◌,
  bit_and, ltb, ◌==◌, if◌then◌else◌, Run, ok, stop, ◌>>=◌,
}

pub record Ring : Type 0 where
  pub key : ℕ
  pub first : ℕ
  pub rest : List ℕ

-- The tree that hangs at a `CUradixNode *`.
pub data Tree : Type 0 where
  leaf : Tree
  node : Ring → Tree → Tree → Tree

pub record RadixTree : Type 0 where
  pub root : Tree
  pub key_bits : ℕ

-- The primary node of a subtree, or NULL.
abbrev pub primary : Tree → Option Ring
primary leaf = none
primary (node c l r) = some c

unfoldable pub get_smaller_child : Tree → Tree → Option Ring
get_smaller_child leaf r = primary r
get_smaller_child (node c ll lr) r = some c

unfoldable pub get_smaller_node : Ring → Option Ring → Ring
get_smaller_node first_node none = first_node
get_smaller_node first_node (some second) =
    if ltb first_node.key second.key then first_node else second

unfoldable pub is_bit_set : ℕ → ℕ → Bool
is_bit_set key key_bit = not (bit_and key (2 ^ key_bit) == 0)

-- `radixListInit`: a ring of one node.
abbrev pub list_init : ℕ → ℕ → Ring
list_init key id = record { key = key; first = id; rest = [] }

-- `radixListInsert` puts the node `new` before the head, which is at the end of the ring.
abbrev pub list_insert : ℕ → Ring → Ring
list_insert new head = record head { rest = head.rest ++ (new ∷ []) }

abbrev pub has_id : ℕ → List ℕ → Bool
has_id id [] = false
has_id id (x ∷ xs) = x == id || has_id id xs

-- `radixListRemove` of a node that is not the head.
unfoldable pub list_remove : ℕ → List ℕ → List ℕ
list_remove id [] = []
list_remove id (x ∷ xs) = if x == id then xs else x ∷ list_remove id xs

abbrev pub list_empty : List ℕ → Bool
list_empty [] = true
list_empty (x ∷ xs) = false

-- The assertion wants a positive number of bits.
unfoldable pub init : ℕ → Run RadixTree
init zero = stop
init (suc k) = ok (record { root = leaf; key_bits = suc k })

abbrev pub is_leaf : Tree → Bool
is_leaf leaf = true
is_leaf (node c l r) = false

pub empty : RadixTree → Bool
empty tree = is_leaf tree.root

-- The loop of `radixTreeInsert` at the pointer to a subtree: `key` is its argument, `bits` is
-- `cur_key_bit`, and `new` is the node to insert, with its ring. If `new` has the smaller key it
-- takes the place of the node there (`radixTreeReplaceNode`), which then goes on down.
unfoldable pub insert_loop : (key bits : ℕ) → Ring → Tree → Run Tree
insert_loop key bits new leaf = ok (node new leaf leaf)
insert_loop key zero new (node c l r) =
    if c.key == key then ok (node (list_insert new.first c) l r) else stop
insert_loop key (suc bits) new (node c l r) =
    let small : Ring = if ltb new.key c.key then new else c in
    let large : Ring = if ltb new.key c.key then c else new in
    let at_right : Run Tree = insert_loop key bits large r >>= λ r'. ok (node small l r') in
    let at_left : Run Tree = insert_loop key bits large l >>= λ l'. ok (node small l' r) in
    if c.key == key
    then ok (node (list_insert new.first c) l r)
    else if is_bit_set large.key bits
    then at_right
    else at_left

-- Whether the node with this address is in the tree.
unfoldable pub is_linked : ℕ → Tree → Bool
is_linked id leaf = false
is_linked id (node c l r) =
    (c.first == id || has_id id c.rest) || (is_linked id l || is_linked id r)

-- The assertion wants the key to fit the bits of the tree; a tree of 64 bits takes every key. The
-- node is then cleared: if it is in the tree, that cuts off what hangs at it, and the model stops.
unfoldable pub insert : RadixTree → ℕ → ℕ → Run RadixTree
insert tree id key =
    if (tree.key_bits == 64 || ltb key (2 ^ tree.key_bits)) && not (is_linked id tree.root)
    then (insert_loop key tree.key_bits (list_init key id) tree.root >>= λ t.
        ok (record tree { root = t }))
    else stop

-- The loop of `radixTreeFindGEQ`. `found` and `gt_tree` are its two candidates, the latter by its
-- root. With no bit left `cur_key_bit` wraps and the shift by it is undefined: `stop`.
unfoldable pub find_loop : (key bits : ℕ) → Option Ring → Option Ring → Tree → Run (Option Ring)
find_loop key bits none gt_tree leaf = ok gt_tree
find_loop key bits (some f) gt_tree leaf = ok (some f)
find_loop key zero found gt_tree (node c l r) = if c.key == key then ok (some c) else stop
find_loop key (suc bits) found gt_tree (node c l r) =
    let found' : Option Ring = if ltb key c.key then some (get_smaller_node c found) else found in
    let at_right : Run (Option Ring) = find_loop key bits found' gt_tree r in
    let at_left : Run (Option Ring) =
      find_loop key bits found' (if is_leaf r then gt_tree else primary r) l in
    if c.key == key then ok (some c) else if is_bit_set key bits then at_right else at_left

unfoldable pub find_geq : RadixTree → ℕ → Run (Option Ring)
find_geq tree key = find_loop key tree.key_bits none none tree.root

-- `radixTreeRemove` of a node with no other in its ring. The node stands at the root of the tree
-- given, and what it holds is not read: it is swapped with its smaller child, whose old place it
-- takes (`radixTreeSwapParentWithChild`), until it has no child, and is then cut off.
unfoldable pub cut : Tree → Tree
cut leaf = leaf
cut (node c leaf leaf) = leaf
cut (node c leaf (node d rl rr)) = node d leaf (cut (node d rl rr))
cut (node c (node d ll lr) r) = node d (cut (node d ll lr)) r

-- A primary node that is not alone leaves its place to the next of its ring.
-- The list given is its ring.
unfoldable pub remove_primary : List ℕ → Ring → Tree → Tree → Tree
remove_primary [] c l r = cut (node c l r)
remove_primary (next ∷ others) c l r = node (record c { first = next; rest = others }) l r

-- `radixTreeRemove`, which is given the node: here it is looked for by its address. `remove` below
-- calls it for a node that is in the tree.
unfoldable pub remove_node : ℕ → Tree → Tree
remove_node id leaf = leaf
remove_node id (node c l r) =
    if c.first == id
    then remove_primary c.rest c l r
    else if has_id id c.rest
    then node (record c { rest = list_remove id c.rest }) l r
    else node c (remove_node id l) (remove_node id r)

abbrev pub removed : RadixTree → ℕ → RadixTree
removed tree id = record tree { root = remove_node id tree.root }

-- A node that is not in the tree has a null `parent_to_self_ptr`, or an old one, to be written
-- through: `stop`.
unfoldable pub remove : RadixTree → ℕ → Run RadixTree
remove tree id = if is_linked id tree.root then ok (removed tree id) else stop
