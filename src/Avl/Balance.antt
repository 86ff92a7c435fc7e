-- ===== src/Avl/Balance.antt =====
-- The rebalancing of one node: which heights come out, and that no node moves in the order.
use mathlib.Core.List.{append_assoc}
use allocator_bench.Base.{
  ℕ, suc, ◌+◌, ◌≤◌, ◌≡◌, ◌≢◌, ◌⊎◌, inl, inr, refl, sym, max, Bool, true, List, ◌∷◌, ◌++◌, arith,
  eq_or_ne, Bool-cases, ltb, ℤ, pos, negsuc, sub_ℕ, leb_ℤ, ok, stop, Run, Returns, ◌>>=◌,
}
use allocator_bench.Avl.{
  Node, Tree, leaf, node, get_height, get_balance, recalculated, recalculate_height, rotate_left,
  rotate_right, lower_left, lower_right, rebalance_node,
}
use allocator_bench.Avl.Spec.{items, IsAvl}

-- The height that a node's children give it.
abbrev pub height_over : Tree → Tree → ℕ
height_over l r = 1 + max (get_height l) (get_height r)

-- The balance by the two heights, under the assertion.
pub get_balance_is :
    (l : Tree) (x : Node) (h : ℕ) (r : Tree) (b : ℤ)
    → sub_ℕ (get_height l) (get_height r) ≡ b
    → leb_ℤ b (pos 2) ≡ true
    → get_balance (node l x h r) ≡ ok b
unfolding get_balance
get_balance_is l x h r b e small = rw e (rw small refl)

pub diff_even : (a b : ℕ) → a ≡ b → sub_ℕ a b ≡ pos 0
diff_even a b e = ground arith

pub diff_one : (a b : ℕ) → a ≡ suc b → sub_ℕ a b ≡ pos 1
diff_one a b e = ground arith

diff_two : (a b : ℕ) → a ≡ suc (suc b) → sub_ℕ a b ≡ pos 2
diff_two a b e = ground arith

pub diff_minus_one : (a b : ℕ) → suc a ≡ b → sub_ℕ a b ≡ negsuc 0
diff_minus_one a b e = ground arith

diff_minus_two : (a b : ℕ) → suc (suc a) ≡ b → sub_ℕ a b ≡ negsuc 1
diff_minus_two a b e = ground arith

pub level_cases : (a b : ℕ) → a ≤ b + 1 → b ≤ a + 1 → (a ≡ b) ⊎ ((a ≡ suc b) ⊎ (suc a ≡ b))
level_cases a b p q = elim (eq_or_ne a b) [
  | inl e ↦ inl e
  | inr ne ↦ elim (Bool-cases (ltb a b)) [
    | inl lt ↦ inr (inr (ground arith))
    | inr ge ↦ inr (inl (ground arith))
  ]
]

-- A node whose children differ by at most 1 keeps its shape.
pub rebalance_node-level :
    (d : Bool) (l : Tree) (x : Node) (h : ℕ) (r : Tree)
    → get_height l ≤ get_height r + 1
    → get_height r ≤ get_height l + 1
    → rebalance_node d (node l x h r) ≡ ok (recalculated l x r)
unfolding rebalance_node recalculate_height
rebalance_node-level d l x h r p q = elim (level_cases (get_height l) (get_height r) p q) [
  | inl e ↦ rw (get_balance_is l x h r (pos 0) (diff_even _ _ e) refl)
  | inr (inl e) ↦ rw (get_balance_is l x h r (pos 1) (diff_one _ _ e) refl)
  | inr (inr e) ↦ rw (get_balance_is l x h r (negsuc 0) (diff_minus_one _ _ e) refl)
]

-- A rebalanced subtree: balanced, with the same nodes in order, of height `n` or one more.
pub record Lowered (d : Bool) (n : ℕ) (nodes : List Node) (t : Tree) : Type 0 where
  pub avl : IsAvl t
  pub same : items t ≡ nodes
  pub height : (get_height t ≡ n) ⊎ ((d ≡ true) × (get_height t ≡ suc n))

-- The children of a node are not equally high.
abbrev pub IsLeaning : Tree → Type 0
IsLeaning leaf = ⊥
IsLeaning (node l x h r) = get_height l ≢ get_height r

-- The two shapes that rotations leave.
turned :
    (d : Bool) (n : ℕ) (a : Tree) (x : Node) (b : Tree) (y : Node) (c : Tree)
    → IsAvl a
    → IsAvl b
    → IsAvl c
    → (get_height a ≤ get_height b + 1) × (get_height b ≤ get_height a + 1)
    → (height_over a b ≤ get_height c + 1) × (get_height c ≤ height_over a b + 1)
    → (1 + max (height_over a b) (get_height c) ≡ n)
      ⊎ ((d ≡ true) × (1 + max (height_over a b) (get_height c) ≡ suc n))
    → Lowered d n
        (items a ++ (x ∷ (items b ++ (y ∷ items c))))
        (recalculated (recalculated a x b) y c)
turned d n a x b y c aa ab ac p q height = record {
  avl = (refl, q.0, q.1, (refl, p.0, p.1, aa, ab), ac);
  same = simp append_assoc;
  height = height;
}

turned_back :
    (d : Bool) (n : ℕ) (a : Tree) (x : Node) (b : Tree) (y : Node) (c : Tree)
    → IsAvl a
    → IsAvl b
    → IsAvl c
    → (get_height b ≤ get_height c + 1) × (get_height c ≤ get_height b + 1)
    → (get_height a ≤ height_over b c + 1) × (height_over b c ≤ get_height a + 1)
    → (1 + max (get_height a) (height_over b c) ≡ n)
      ⊎ ((d ≡ true) × (1 + max (get_height a) (height_over b c) ≡ suc n))
    → Lowered d n
        (items a ++ (x ∷ (items b ++ (y ∷ items c))))
        (recalculated a x (recalculated b y c))
turned_back d n a x b y c aa ab ac p q height = record {
  avl = (refl, q.0, q.1, aa, (refl, p.0, p.1, ab, ac));
  same = refl;
  height = height;
}

turned_twice :
    (d : Bool) (n : ℕ) (a : Tree) (x : Node) (b : Tree) (z : Node) (c : Tree) (y : Node) (e : Tree)
    → IsAvl a
    → IsAvl b
    → IsAvl c
    → IsAvl e
    → (suc (get_height a) ≡ n) × (suc (get_height e) ≡ n)
    → (get_height b ≤ get_height a) × (get_height a ≤ get_height b + 1)
    → (get_height c ≤ get_height a) × (get_height a ≤ get_height c + 1)
    → (nodes : List Node) → items a ++ (x ∷ (items b ++ (z ∷ (items c ++ (y ∷ items e))))) ≡ nodes
    → Lowered d (suc n) nodes (recalculated (recalculated a x b) z (recalculated c y e))
turned_twice d n a x b z c y e aa ab ac ae h p q nodes same = record {
  avl = (
    refl,
    omega arith,
    omega arith,
    (refl, omega arith, omega arith, aa, ab),
    (refl, omega arith, omega arith, ac, ae),
  );
  same = simp append_assoc same;
  height = inl (omega arith);
}

-- Each of the two rotations on the right, by the heights of the right child's children.
double_left :
    (d : Bool) (l : Tree) (x : Node) (h : ℕ) (a : Tree) (y : Node) (hy : ℕ) (b : Tree)
    → IsAvl l
    → IsAvl (node a y hy b)
    → hy ≡ suc (suc (get_height l))
    → get_height a ≡ suc (get_height b)
    → Returns
        (λ t. Lowered d hy (items l ++ (x ∷ items (node a y hy b))) (recalculate_height t))
        (rotate_right (node a y hy b) >>= λ r'. rotate_left (node l x h r'))
unfolding rotate_left rotate_right recalculate_height
double_left d l x h leaf y hy b al ar tall e = absurd (omega arith)
double_left d l x h (node a z hz c) y hy b al ar tall e = rw tall (
    turned_twice d (suc (get_height l)) l x a z c y b al ar.3.3 ar.3.4 ar.4
      (omega arith, omega arith) (omega arith, omega arith) (omega arith, omega arith) _
      (simp append_assoc))

-- The right subtree is too high by one: a rotation to the left, single or double.
pub lower_right-Lowered :
    (d : Bool) (l : Tree) (x : Node) (h : ℕ) (r : Tree)
    → IsAvl l
    → IsAvl r
    → get_height r ≡ suc (suc (get_height l))
    → (d ≡ true) ⊎ IsLeaning r
    → Returns
        (λ t. Lowered d (get_height r) (items l ++ (x ∷ items r)) (recalculate_height t))
        (lower_right d l x h r)
unfolding lower_right rotate_left recalculate_height
lower_right-Lowered d l x h leaf al ar tall lean = absurd (omega arith)
lower_right-Lowered d l x h (node a y hy b) al ar tall lean =
    elim (level_cases (get_height a) (get_height b) ar.1 ar.2) [
      | inl e ↦
          let deletes : d ≡ true = elim lean [ inl t ↦ t | inr n ↦ absurd (n e) ] in
          rw (get_balance_is a y hy b (pos 0) (diff_even _ _ e) refl) (
            rw deletes (
              turned true hy l x a y b al ar.3 ar.4 (omega arith, omega arith)
                (omega arith, omega arith) (inr (refl, omega arith))))
      | inr (inl e) ↦
          rw (get_balance_is a y hy b (pos 1) (diff_one _ _ e) refl)
            (double_left d l x h a y hy b al ar tall e)
      | inr (inr e) ↦ rw (get_balance_is a y hy b (negsuc 0) (diff_minus_one _ _ e) refl) (
          turned d hy l x a y b al ar.3 ar.4 (omega arith, omega arith) (omega arith, omega arith)
            (inl (omega arith)))
    ]

double_right :
    (d : Bool) (l : Tree) (y : Node) (hy : ℕ) (r : Tree) (x : Node) (h : ℕ) (b : Tree)
    → IsAvl b
    → IsAvl (node l y hy r)
    → hy ≡ suc (suc (get_height b))
    → suc (get_height l) ≡ get_height r
    → Returns
        (λ t. Lowered d hy (items (node l y hy r) ++ (x ∷ items b)) (recalculate_height t))
        (rotate_left (node l y hy r) >>= λ l'. rotate_right (node l' x h b))
unfolding rotate_left rotate_right recalculate_height
double_right d l y hy leaf x h b ab al tall e = absurd (omega arith)
double_right d l y hy (node a z hz c) x h b ab al tall e = rw tall (
    turned_twice d (suc (get_height b)) l y a z c x b al.3 al.4.3 al.4.4 ab
      (omega arith, omega arith) (omega arith, omega arith) (omega arith, omega arith) _
      (simp append_assoc))

-- The left subtree is too high by one.
pub lower_left-Lowered :
    (d : Bool) (l : Tree) (x : Node) (h : ℕ) (r : Tree)
    → IsAvl l
    → IsAvl r
    → get_height l ≡ suc (suc (get_height r))
    → (d ≡ true) ⊎ IsLeaning l
    → Returns
        (λ t. Lowered d (get_height l) (items l ++ (x ∷ items r)) (recalculate_height t))
        (lower_left d l x h r)
unfolding lower_left rotate_right recalculate_height
lower_left-Lowered d leaf x h r al ar tall lean = absurd (omega arith)
lower_left-Lowered d (node a y hy b) x h r al ar tall lean =
    elim (level_cases (get_height a) (get_height b) al.1 al.2) [
      | inl e ↦
          let deletes : d ≡ true = elim lean [ inl t ↦ t | inr n ↦ absurd (n e) ] in
          rw (get_balance_is a y hy b (pos 0) (diff_even _ _ e) refl) (
            rw deletes (
              rw (append_assoc (items a) (y ∷ items b) (x ∷ items r)) (
                turned_back true hy a y b x r al.3 al.4 ar (omega arith, omega arith)
                  (omega arith, omega arith) (inr (refl, omega arith)))))
      | inr (inl e) ↦ rw (get_balance_is a y hy b (pos 1) (diff_one _ _ e) refl) (
          rw (append_assoc (items a) (y ∷ items b) (x ∷ items r)) (
            turned_back d hy a y b x r al.3 al.4 ar (omega arith, omega arith)
              (omega arith, omega arith) (inl (omega arith))))
      | inr (inr e) ↦
          rw (get_balance_is a y hy b (negsuc 0) (diff_minus_one _ _ e) refl)
            (double_right d a y hy b x h r ar al tall e)
    ]

then_recalculated :
    (P : Tree → Type 0) (m : Run Tree)
    → Returns (λ t. P (recalculate_height t)) m
    → Returns P (m >>= λ t. ok (recalculate_height t))
then_recalculated P (ok t) h = h
then_recalculated P stop h = h

-- The body of the loop where the right child is too high.
pub rebalance_node-right :
    (d : Bool) (l : Tree) (x : Node) (h : ℕ) (r : Tree)
    → IsAvl l
    → IsAvl r
    → get_height r ≡ suc (suc (get_height l))
    → (d ≡ true) ⊎ IsLeaning r
    → Returns
        (Lowered d (get_height r) (items l ++ (x ∷ items r)))
        (rebalance_node d (node l x h r))
unfolding rebalance_node
rebalance_node-right d l x h r al ar tall lean =
    rw (get_balance_is l x h r (negsuc 1) (diff_minus_two _ _ (sym tall)) refl) (
      then_recalculated (Lowered d (get_height r) (items l ++ (x ∷ items r)))
        (lower_right d l x h r) (lower_right-Lowered d l x h r al ar tall lean))

-- The body of the loop where the left child is too high.
pub rebalance_node-left :
    (d : Bool) (l : Tree) (x : Node) (h : ℕ) (r : Tree)
    → IsAvl l
    → IsAvl r
    → get_height l ≡ suc (suc (get_height r))
    → (d ≡ true) ⊎ IsLeaning l
    → Returns
        (Lowered d (get_height l) (items l ++ (x ∷ items r)))
        (rebalance_node d (node l x h r))
unfolding rebalance_node
rebalance_node-left d l x h r al ar tall lean =
    rw (get_balance_is l x h r (pos 2) (diff_two _ _ tall) refl) (
      then_recalculated (Lowered d (get_height l) (items l ++ (x ∷ items r))) (lower_left d l x h r)
        (lower_left-Lowered d l x h r al ar tall lean))
