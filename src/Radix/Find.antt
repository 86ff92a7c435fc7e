-- ===== src/Radix/Find.antt =====
-- `radixTreeFindGEQ`: the best fit.
use allocator_bench.Base.{
  ℕ, zero, suc, ◌+◌, ◌*◌, ◌/◌, ◌^◌, ◌<◌, ◌≤◌, ◌≡◌, ◌≢◌, refl, ◌⊎◌, inl, inr, Option, none, some,
  arith, ltb, ◌==◌, ==-eq, Bool-cases, if◌then◌else◌, eq_of_==, ne_of_==, Returns, Returns-imp,
}
use allocator_bench.Radix.{
  Ring, Tree, leaf, node, RadixTree, primary, is_leaf, is_bit_set, get_smaller_node, find_loop,
  find_geq,
}
use allocator_bench.Radix.Spec.{All, All-imp, All-prefix, heap_below, IsRadix, IsValid}
use allocator_bench.Radix.Digits.{prefix_right, prefix_left, lt_of_div-lt, div-eq-zero}
use allocator_bench.Radix.Candidates.{
  Holds, Above, Under, Over, Before, AtMost, Fits, Under-root, next_gt, next_found, right_more,
  right-Fits, left-Fits,
}

-- The node that the key is at is the best fit.
hit-Fits :
    (key bits m : ℕ) (found gt_tree : Option Ring) (c : Ring) (l r : Tree)
    → IsRadix bits m (node c l r)
    → Above key found
    → Under (node c l r) gt_tree
    → c.key ≡ key
    → Fits key found gt_tree (node c l r) (some c)
hit-Fits key bits m found gt_tree c l r order above under e =
    let heap = heap_below bits m c l r order in
    (
      omega arith,
      (
        inr (omega arith),
        All-imp _ _ (λ k h. inr (omega arith)) l heap.0,
        All-imp _ _ (λ k h. inr (omega arith)) r heap.1,
      ),
      at_found found above,
      Under-root c l r gt_tree under,
      inl (inl refl),
    )
  where
    at_found : (f : Option Ring) → Above key f → AtMost c.key f
    at_found none h = tt
    at_found (some f) h = omega arith

Under-children :
    (c : Ring) (l r : Tree) (g : Option Ring) → Under (node c l r) g → Under l g × Under r g
Under-children c l r none u = (tt, tt)
Under-children c l r (some g) u = (u.1, u.2)

pub All-Holds : (P : ℕ → Type 0) (x : Ring) (t : Tree) → All P t → Holds x t → P x.key
All-Holds P x leaf a h = absurd h
All-Holds P x (node c l r) a (inl e) = rw e a.0
All-Holds P x (node c l r) a (inr (inl h)) = All-Holds P x l a.1 h
All-Holds P x (node c l r) a (inr (inr h)) = All-Holds P x r a.2 h

-- All on the left of a node is smaller than what is on its right.
left_below :
    (bits m : ℕ) (l r : Tree)
    → IsRadix bits (2 * m) l
    → IsRadix bits (2 * m + 1) r
    → (x : Ring) → Holds x r
    → All (λ k. k < x.key) l
left_below bits m l r left right x h =
    let e : x.key / 2 ^ bits ≡ 2 * m + 1 =
      All-Holds (λ k. k / 2 ^ bits ≡ 2 * m + 1) x r (All-prefix bits (2 * m + 1) r right) h in
    All-imp _ _ (λ k p. lt_of_div-lt k x.key (2 ^ bits) (omega arith)) l
      (All-prefix bits (2 * m) l left)

find_loop-Fits :
    (key bits : ℕ) (found gt_tree : Option Ring) (t : Tree) (m : ℕ)
    → IsRadix bits m t
    → key / 2 ^ bits ≡ m
    → Above key found
    → Above key gt_tree
    → Over t found
    → Under t gt_tree
    → Before found gt_tree
    → Returns (Fits key found gt_tree t) (find_loop key bits found gt_tree t)
unfolding find_loop
find_loop-Fits key bits none none leaf m order pre af ag over under before = (refl, refl, tt)
find_loop-Fits key bits none (some g) leaf m order pre af ag over under before =
    (omega arith, tt, tt, omega arith, inr (inr refl))
find_loop-Fits key bits (some f) none leaf m order pre af ag over under before =
    (omega arith, tt, omega arith, tt, inr (inl refl))
find_loop-Fits key bits (some f) (some g) leaf m order pre af ag over under before =
    (omega arith, tt, omega arith, omega arith, inr (inl refl))
find_loop-Fits key zero found gt_tree (node c leaf leaf) m order pre af ag over under before =
    rw (==-eq c.key key (omega arith))
      (hit-Fits key zero m found gt_tree c leaf leaf order af under (omega arith))
find_loop-Fits key zero found gt_tree (node c leaf (node d u v)) m order pre af ag over under
      before =
    absurd order
find_loop-Fits key zero found gt_tree (node c (node d u v) r) m order pre af ag over under before =
    absurd order
find_loop-Fits key (suc bits) found gt_tree (node c l r) m order pre af ag over under before =
    elim (Bool-cases (c.key == key)) [
      | inl hit ↦
          rw hit
            (hit-Fits key (suc bits) m found gt_tree c l r order af under (eq_of_== c.key key hit))
      | inr miss ↦ rw miss (elim (Bool-cases (is_bit_set key bits)) [
        | inl set ↦ rw set (
            go_right (ne_of_== c.key key miss) (prefix_right key bits m pre set)
              (λ f. find_loop-Fits key bits f gt_tree r (2 * m + 1) order.4))
        | inr clear ↦ rw clear (
            go_left (ne_of_== c.key key miss) (prefix_left key bits m pre clear)
              (λ f g. find_loop-Fits key bits f g l (2 * m) order.3))
      ])
    ]
  where
    next : Option Ring
    next = if ltb key c.key then some (get_smaller_node c found) else found

    children : Under l gt_tree × Under r gt_tree
    children = Under-children c l r gt_tree under

    go_right :
        c.key ≢ key
        → key / 2 ^ bits ≡ 2 * m + 1
        → ((f : Option Ring)
            → key / 2 ^ bits ≡ 2 * m + 1
            → Above key f
            → Above key gt_tree
            → Over r f
            → Under r gt_tree
            → Before f gt_tree
            → Returns (Fits key f gt_tree r) (find_loop key bits f gt_tree r))
        → Returns (Fits key found gt_tree (node c l r)) (find_loop key bits next gt_tree r)
    go_right ne half ih =
        let cand = next_found key bits m c l r gt_tree order pre ag under found af over before ne in
        Returns-imp (Fits key next gt_tree r) (Fits key found gt_tree (node c l r))
          (find_loop key bits next gt_tree r)
          (ih next half cand.above ag cand.over.1 children.1 cand.before)
          (right-Fits key bits m c l r gt_tree order pre ag under cand half)

    beside : Option Ring
    beside = if is_leaf r then gt_tree else primary r

    go_left :
        c.key ≢ key
        → key / 2 ^ bits ≡ 2 * m
        → ((f g : Option Ring)
            → key / 2 ^ bits ≡ 2 * m
            → Above key f
            → Above key g
            → Over l f
            → Under l g
            → Before f g
            → Returns (Fits key f g l) (find_loop key bits f g l))
        → Returns (Fits key found gt_tree (node c l r)) (find_loop key bits next beside l)
    go_left ne half ih =
        let cand = next_found key bits m c l r gt_tree order pre ag under found af over before ne in
        let side =
          next_gt key bits (2 * m + 1) l r gt_tree order.4
            (right_more key bits m c l r gt_tree order pre ag under key half)
            (left_below bits m l r order.3 order.4) ag children.0 children.1 in
        Returns-imp (Fits key next beside l) (Fits key found gt_tree (node c l r))
          (find_loop key bits next beside l)
          (ih next beside half cand.above side.above cand.over.0 side.under
            (side.before next cand.over.1 cand.before))
          (left-Fits key bits m c l r gt_tree order pre ag under cand side)

-- The best fit of a tree: none if all keys are too small, else a ring of the tree whose key is
-- the least of those that are large enough.
abbrev pub BestFit : ℕ → Tree → Option Ring → Type 0
BestFit key t none = All (λ k. k < key) t
BestFit key t (some c) = (key ≤ c.key) × All (λ k. (k < key) ⊎ (c.key ≤ k)) t × Holds c t

BestFit-Fits :
    (key : ℕ) (t : Tree) (res : Option Ring) → Fits key none none t res → BestFit key t res
BestFit-Fits key t none h = h.2
BestFit-Fits key t (some c) (fits, least, a, b, inl holds) = (fits, least, holds)
BestFit-Fits key t (some c) (fits, least, a, b, inr (inl e)) = cc
BestFit-Fits key t (some c) (fits, least, a, b, inr (inr e)) = cc

-- On a valid tree, and for a key that fits its bits, `radixTreeFindGEQ` comes to no undefined
-- shift, and returns a node of the tree with the least key that is not below the one given, or
-- nothing where the tree has no such key.
pub find_geq-BestFit :
    (tree : RadixTree) (key : ℕ)
    → IsValid tree
    → key < 2 ^ tree.key_bits
    → Returns (BestFit key tree.root) (find_geq tree key)
unfolding find_geq
find_geq-BestFit tree key valid fits =
    Returns-imp (Fits key none none tree.root) (BestFit key tree.root)
      (find_loop key tree.key_bits none none tree.root)
      (find_loop-Fits key tree.key_bits none none tree.root 0 valid
        (div-eq-zero key (2 ^ tree.key_bits) fits) tt tt tt tt tt)
      (BestFit-Fits key tree.root)
