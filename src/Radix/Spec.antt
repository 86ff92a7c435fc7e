-- ===== src/Radix/Spec.antt =====
-- What a radix tree promises: the order of its keys, and the collection of nodes that it holds.
use allocator_bench.Base.{
  ℕ, zero, suc, ◌+◌, ◌*◌, ◌/◌, ◌^◌, ◌<◌, ◌≤◌, ◌≡◌, ◌≢◌, List, [], ◌∷◌, ◌++◌, arith, ◌==◌, ltb, true,
  false, refl, if◌then◌else◌,
}
use allocator_bench.Radix.Digits.{div-pow_half}
use allocator_bench.Radix.{Ring, Tree, leaf, node, RadixTree, has_id, is_linked}

-- Every key of the tree satisfies `P`.
abbrev pub All : (ℕ → Type 0) → Tree → Type 0
All P leaf = Unit
All P (node c l r) = P c.key × All P l × All P r

pub All-imp : (P Q : ℕ → Type 0) → ((k : ℕ) → P k → Q k) → (t : Tree) → All P t → All Q t
All-imp P Q f leaf a = tt
All-imp P Q f (node c l r) (p, pl, pr) = (f c.key p, All-imp P Q f l pl, All-imp P Q f r pr)

-- The tree at a place whose keys have `bits` bits yet to be read and share the bits `m` above
-- those: a parent's key is smaller than all below it, and a key's next bit chooses its side.
abbrev pub IsRadix : ℕ → ℕ → Tree → Type 0
IsRadix bits m leaf = Unit
IsRadix zero m (node c leaf leaf) = c.key / 2 ^ 0 ≡ m
IsRadix zero m (node c l r) = ⊥
IsRadix (suc b) m (node c l r) =
    (c.key / 2 ^ suc b ≡ m)
    × All (λ k. c.key < k) l
    × All (λ k. c.key < k) r
    × IsRadix b (2 * m) l
    × IsRadix b (2 * m + 1) r

abbrev pub IsValid : RadixTree → Type 0
IsValid tree = IsRadix tree.key_bits 0 tree.root

-- How often a list of addresses holds `id`.
abbrev pub count : ℕ → List ℕ → ℕ
count id [] = 0
count id (x ∷ xs) = (if x == id then 1 else 0) + count id xs

pub count-append : (id : ℕ) (xs ys : List ℕ) → count id (xs ++ ys) ≡ count id xs + count id ys
count-append id [] ys = omega arith
count-append id (x ∷ xs) ys = omega (arith, count-append id xs ys)

-- How often a ring, a tree, holds the node `id` under `key`.
abbrev pub in_ring : (key id : ℕ) → Ring → ℕ
in_ring key id c = if c.key == key then (if c.first == id then 1 else 0) + count id c.rest else 0

unfoldable pub occurs : (key id : ℕ) → Tree → ℕ
occurs key id leaf = 0
occurs key id (node c l r) = in_ring key id c + occurs key id l + occurs key id r

-- The address `id` names at most one node of the tree.
abbrev pub IsUnique : ℕ → Tree → Type 0
IsUnique id t =
    ((k : ℕ) → occurs k id t ≤ 1) × ((k k' : ℕ) → k ≢ k' → occurs k id t + occurs k' id t ≤ 1)

pub count-has_id : (id : ℕ) (xs : List ℕ) → has_id id xs ≡ ltb 0 (count id xs)
count-has_id id [] = refl
count-has_id id (x ∷ xs) = ground (arith, count-has_id id xs)

-- A node is linked where the tree holds it under some key.
pub is_linked-absent : (id : ℕ) (t : Tree) → ((k : ℕ) → occurs k id t ≡ 0) → is_linked id t ≡ false
unfolding is_linked occurs
is_linked-absent id leaf h = refl
is_linked-absent id (node c l r) h =
    let left = is_linked-absent id l (λ k. omega (arith, h k)) in
    let right = is_linked-absent id r (λ k. omega (arith, h k)) in
    ground (arith, h c.key, count-has_id id c.rest, left, right)

pub is_linked-present : (k id : ℕ) (t : Tree) → 0 < occurs k id t → is_linked id t ≡ true
unfolding is_linked occurs
is_linked-present k id leaf h = absurd (omega arith)
is_linked-present k id (node c l r) h =
    ground (arith, count-has_id id c.rest, is_linked-present k id l, is_linked-present k id r)

pub All-prefix : (bits m : ℕ) (t : Tree) → IsRadix bits m t → All (λ k. k / 2 ^ bits ≡ m) t
All-prefix bits m leaf order = tt
All-prefix zero m (node c leaf leaf) order = (order, tt, tt)
All-prefix zero m (node c leaf (node d u v)) order = absurd order
All-prefix zero m (node c (node d u v) r) order = absurd order
All-prefix (suc b) m (node c l r) order = (
  order.0,
  All-imp _ _ (λ k h. omega (arith, div-pow_half k b)) l (All-prefix b (2 * m) l order.3),
  All-imp _ _ (λ k h. omega (arith, div-pow_half k b)) r (All-prefix b (2 * m + 1) r order.4),
)

-- The keys below a node are larger than its own.
pub heap_below :
    (b m : ℕ) (c : Ring) (l r : Tree)
    → IsRadix b m (node c l r)
    → All (λ k. c.key < k) l × All (λ k. c.key < k) r
heap_below zero m c leaf leaf order = (tt, tt)
heap_below zero m c leaf (node d u v) order = absurd order
heap_below zero m c (node d u v) r order = absurd order
heap_below (suc b) m c l r order = (order.1, order.2)
