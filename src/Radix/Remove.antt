-- ===== src/Radix/Remove.antt =====
-- `radixTreeRemove`: exactly the node given goes, and the tree stays in order.
use allocator_bench.Base.{
  ℕ, zero, suc, ◌+◌, ◌*◌, ◌/◌, ◌^◌, ◌<◌, ◌≤◌, ◌≡◌, refl, inl, inr, true, false, List, [], ◌∷◌,
  arith, ◌==◌, Bool-cases, ok, Returns, if◌then◌else◌,
}
use allocator_bench.Radix.{
  Ring, Tree, leaf, node, RadixTree, has_id, list_remove, cut, remove_primary, remove_node, removed,
  remove, get_smaller_child, primary,
}
use allocator_bench.Radix.Spec.{
  All, All-imp, All-prefix, heap_below, IsRadix, IsValid, count, in_ring, occurs, IsUnique,
  is_linked-present,
}
use allocator_bench.Radix.Digits.{div-pow_half, lt_of_div-lt}

-- The node that comes up in the place of the removed one is the one that the code chooses.
primary-cut : (c : Ring) (l r : Tree) → primary (cut (node c l r)) ≡ get_smaller_child l r
unfolding cut get_smaller_child
primary-cut c leaf leaf = refl
primary-cut c leaf (node d u v) = refl
primary-cut c (node d u v) r = refl

-- Every key below the root satisfies `P`.
abbrev AllBelow : (ℕ → Type 0) → Tree → Type 0
AllBelow P leaf = Unit
AllBelow P (node c l r) = All P l × All P r

All-cut : (P : ℕ → Type 0) (t : Tree) → AllBelow P t → All P (cut t)
unfolding cut
All-cut P leaf a = tt
All-cut P (node c leaf leaf) a = tt
All-cut P (node c leaf (node d u v)) a = (a.1.0, tt, All-cut P (node d u v) (a.1.1, a.1.2))
All-cut P (node c (node d u v) r) a = (a.0.0, All-cut P (node d u v) (a.0.1, a.0.2), a.1)

abbrev occurs_below : (key id : ℕ) → Tree → ℕ
occurs_below key id leaf = 0
occurs_below key id (node c l r) = occurs key id l + occurs key id r

occurs-cut : (k i : ℕ) (t : Tree) → occurs k i (cut t) ≡ occurs_below k i t
unfolding cut occurs
occurs-cut k i leaf = omega arith
occurs-cut k i (node c leaf leaf) = omega arith
occurs-cut k i (node c leaf (node d u v)) = omega (arith, occurs-cut k i (node d u v))
occurs-cut k i (node c (node d u v) r) = omega (arith, occurs-cut k i (node d u v))

-- All that hangs on the left of a node is smaller than all on its right.
below_right :
    (x b m : ℕ) (r : Tree) → x / 2 ^ b ≡ 2 * m → IsRadix b (2 * m + 1) r → All (λ k. x < k) r
below_right x b m r e order =
    All-imp _ _ (λ k h. lt_of_div-lt x k (2 ^ b) (omega arith)) r (All-prefix b (2 * m + 1) r order)

cut-IsRadix : (bits m : ℕ) (t : Tree) → IsRadix bits m t → IsRadix bits m (cut t)
unfolding cut
cut-IsRadix bits m leaf order = tt
cut-IsRadix zero m (node c leaf leaf) order = tt
cut-IsRadix zero m (node c leaf (node d u v)) order = absurd order
cut-IsRadix zero m (node c (node d u v) r) order = absurd order
cut-IsRadix (suc b) m (node c leaf leaf) order = tt
cut-IsRadix (suc b) m (node c leaf (node d u v)) order =
    let pre = All-prefix b (2 * m + 1) (node d u v) order.4 in
    let heap = heap_below b (2 * m + 1) d u v order.4 in
    (
      omega (arith, div-pow_half d.key b, pre.0),
      tt,
      All-cut (λ k. d.key < k) (node d u v) heap,
      tt,
      cut-IsRadix b (2 * m + 1) (node d u v) order.4,
    )
cut-IsRadix (suc b) m (node c (node d u v) r) order =
    let pre = All-prefix b (2 * m) (node d u v) order.3 in
    let heap = heap_below b (2 * m) d u v order.3 in
    (
      omega (arith, div-pow_half d.key b, pre.0),
      All-cut (λ k. d.key < k) (node d u v) heap,
      below_right d.key b m r pre.0 order.4,
      cut-IsRadix b (2 * m) (node d u v) order.3,
      order.4,
    )

same_key-IsRadix :
    (bits m : ℕ) (c d : Ring) (l r : Tree)
    → c.key ≡ d.key
    → IsRadix bits m (node c l r)
    → IsRadix bits m (node d l r)
same_key-IsRadix zero m c d leaf leaf e order = omega arith
same_key-IsRadix zero m c d leaf (node x u v) e order = absurd order
same_key-IsRadix zero m c d (node x u v) r e order = absurd order
same_key-IsRadix (suc b) m c d l r e order = rw (← e) order

remove_primary-IsRadix :
    (ring : List ℕ) (bits m : ℕ) (c : Ring) (l r : Tree)
    → IsRadix bits m (node c l r)
    → IsRadix bits m (remove_primary ring c l r)
unfolding remove_primary
remove_primary-IsRadix [] bits m c l r order = cut-IsRadix bits m (node c l r) order
remove_primary-IsRadix (next ∷ others) bits m c l r order =
    same_key-IsRadix bits m c (record c { first = next; rest = others }) l r refl order

All-remove_primary :
    (P : ℕ → Type 0) (ring : List ℕ) (c : Ring) (l r : Tree)
    → All P (node c l r)
    → All P (remove_primary ring c l r)
unfolding remove_primary
All-remove_primary P [] c l r a = All-cut P (node c l r) (a.1, a.2)
All-remove_primary P (next ∷ others) c l r a = a

All-remove_node : (P : ℕ → Type 0) (id : ℕ) (t : Tree) → All P t → All P (remove_node id t)
unfolding remove_node
All-remove_node P id leaf a = tt
All-remove_node P id (node c l r) a = elim (Bool-cases (c.first == id)) [
  | inl primary ↦ rw primary (All-remove_primary P c.rest c l r a)
  | inr other ↦ rw other (elim (Bool-cases (has_id id c.rest)) [
    | inl ring ↦ rw ring a
    | inr below ↦ rw below (a.0, All-remove_node P id l a.1, All-remove_node P id r a.2)
  ])
]

below-IsRadix :
    (id bits m : ℕ) (c : Ring) (l r : Tree)
    → IsRadix bits m (node c l r)
    → ((b n : ℕ) → IsRadix b n l → IsRadix b n (remove_node id l))
    → ((b n : ℕ) → IsRadix b n r → IsRadix b n (remove_node id r))
    → IsRadix bits m (node c (remove_node id l) (remove_node id r))
unfolding remove_node
below-IsRadix id zero m c leaf leaf order left right = order
below-IsRadix id zero m c leaf (node x u v) order left right = absurd order
below-IsRadix id zero m c (node x u v) r order left right = absurd order
below-IsRadix id (suc b) m c l r order left right = (
  order.0,
  All-remove_node (λ k. c.key < k) id l order.1,
  All-remove_node (λ k. c.key < k) id r order.2,
  left b (2 * m) order.3,
  right b (2 * m + 1) order.4,
)

remove_node-IsRadix :
    (id : ℕ) (t : Tree) (bits m : ℕ) → IsRadix bits m t → IsRadix bits m (remove_node id t)
unfolding remove_node
remove_node-IsRadix id leaf bits m order = tt
remove_node-IsRadix id (node c l r) bits m order = elim (Bool-cases (c.first == id)) [
  | inl primary ↦ rw primary (remove_primary-IsRadix c.rest bits m c l r order)
  | inr other ↦ rw other (elim (Bool-cases (has_id id c.rest)) [
    | inl ring ↦
        rw ring
          (same_key-IsRadix bits m c (record c { rest = list_remove id c.rest }) l r refl order)
    | inr below ↦ rw below (
        below-IsRadix id bits m c l r order (λ b n o. remove_node-IsRadix id l b n o)
          (λ b n o. remove_node-IsRadix id r b n o))
  ])
]

count-absent : (id : ℕ) (xs : List ℕ) → has_id id xs ≡ false → count id xs ≡ 0
count-absent id [] h = refl
count-absent id (x ∷ xs) h = ground (arith, count-absent id xs)

count-list_remove :
    (id i : ℕ) (xs : List ℕ)
    → has_id id xs ≡ true
    → count i (list_remove id xs) + (if id == i then 1 else 0) ≡ count i xs
unfolding list_remove
count-list_remove id i [] h = cc
count-list_remove id i (x ∷ xs) h = ground (arith, count-list_remove id i xs)

count-present : (id : ℕ) (xs : List ℕ) → has_id id xs ≡ true → 1 ≤ count id xs
count-present id [] h = cc
count-present id (x ∷ xs) h = ground (arith, count-present id xs)

occurs-remove_primary :
    (ring : List ℕ) (k i : ℕ) (c : Ring) (l r : Tree)
    → c.rest ≡ ring
    → occurs k i (remove_primary ring c l r)
        + (if c.key == k then (if c.first == i then 1 else 0) else 0)
      ≡ occurs k i (node c l r)
unfolding remove_primary occurs
occurs-remove_primary [] k i c l r e = rw e (ground (arith, occurs-cut k i (node c l r)))
occurs-remove_primary (next ∷ others) k i c l r e = rw e (ground arith)

IsUnique-left : (id : ℕ) (c : Ring) (l r : Tree) → IsUnique id (node c l r) → IsUnique id l
unfolding occurs
IsUnique-left id c l r u = (λ k. omega (arith, u.0 k), λ k k' n. omega (arith, u.1 k k' n))

IsUnique-right : (id : ℕ) (c : Ring) (l r : Tree) → IsUnique id (node c l r) → IsUnique id r
unfolding occurs
IsUnique-right id c l r u = (λ k. omega (arith, u.0 k), λ k k' n. omega (arith, u.1 k k' n))

-- Where the ring at a node holds `id`, nothing else of that address is left once it is gone.
module _ (id k i : ℕ) (c : Ring) (l r t' : Tree) (u : IsUnique id (node c l r))
    (gone : occurs k i t' + (if c.key == k then (if id == i then 1 else 0) else 0)
      ≡ occurs k i (node c l r)) where
  occurs_gone :
      1 ≤ in_ring c.key id c → occurs k i t' ≡ (if i == id then 0 else occurs k i (node c l r))
  unfolding occurs
  occurs_gone held = ground (arith, u.0 k, u.1 k c.key)

occurs_below_gone :
    (id k i : ℕ) (c : Ring) (l r l' r' : Tree)
    → (c.first == id) ≡ false
    → has_id id c.rest ≡ false
    → occurs k i l' ≡ (if i == id then 0 else occurs k i l)
    → occurs k i r' ≡ (if i == id then 0 else occurs k i r)
    → occurs k i (node c l' r') ≡ (if i == id then 0 else occurs k i (node c l r))
unfolding occurs
occurs_below_gone id k i c l r l' r' other below left right =
    ground (arith, count-absent id c.rest below)

occurs-remove_node :
    (id k i : ℕ) (t : Tree)
    → IsUnique id t
    → occurs k i (remove_node id t) ≡ (if i == id then 0 else occurs k i t)
unfolding remove_node
occurs-remove_node id k i leaf u = unfold occurs in ground arith
occurs-remove_node id k i (node c l r) u = elim (Bool-cases (c.first == id)) [
  | inl primary ↦ rw primary (
      occurs_gone id k i c l r (remove_primary c.rest c l r) u
        (ground (arith, occurs-remove_primary c.rest k i c l r refl)) (ground arith))
  | inr other ↦ rw other (elim (Bool-cases (has_id id c.rest)) [
    | inl ring ↦ rw ring (
        occurs_gone id k i c l r (node (record c { rest = list_remove id c.rest }) l r) u
          (unfold occurs in ground (arith, count-list_remove id i c.rest))
          (ground (arith, count-present id c.rest)))
    | inr below ↦ rw below (
        occurs_below_gone id k i c l r (remove_node id l) (remove_node id r) other below
          (occurs-remove_node id k i l (IsUnique-left id c l r u))
          (occurs-remove_node id k i r (IsUnique-right id c l r u)))
  ])
]

-- What a removal comes to.
abbrev pub IsRemoved : RadixTree → ℕ → RadixTree → Type 0
IsRemoved tree id tree' =
    IsValid tree'
    × (tree'.key_bits ≡ tree.key_bits)
    × ((k i : ℕ) → occurs k i tree'.root ≡ (if i == id then 0 else occurs k i tree.root))

pub removed-IsRemoved :
    (tree : RadixTree) (id : ℕ)
    → IsValid tree
    → IsUnique id tree.root
    → IsRemoved tree id (removed tree id)
removed-IsRemoved tree id valid unique = (
  remove_node-IsRadix id tree.root tree.key_bits 0 valid,
  refl,
  λ k i. occurs-remove_node id k i tree.root unique,
)

pub remove-removed :
    (key id : ℕ) (tree : RadixTree)
    → 0 < occurs key id tree.root
    → remove tree id ≡ ok (removed tree id)
unfolding remove
remove-removed key id tree there = rw (is_linked-present key id tree.root there) refl

-- On a valid tree that holds the node given, under some key and once in all, `radixTreeRemove` leaves
-- a valid tree of the same width, from which that node is gone, and which holds every other node
-- under its key as before.
pub remove_lem :
    (tree : RadixTree) (key id : ℕ)
    → IsValid tree
    → IsUnique id tree.root
    → 0 < occurs key id tree.root
    → Returns (IsRemoved tree id) (remove tree id)
remove_lem tree key id valid unique there =
    rw (remove-removed key id tree there) (removed-IsRemoved tree id valid unique)
