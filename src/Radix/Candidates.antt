-- ===== src/Radix/Candidates.antt =====
-- What the loop of `radixTreeFindGEQ` knows of its candidates, and of the subtree it goes to.
use allocator_bench.Base.{
  ℕ, suc, ◌+◌, ◌*◌, ◌/◌, ◌^◌, ◌<◌, ◌≤◌, ◌≡◌, ◌≢◌, refl, ◌⊎◌, inl, inr, true, false, Option, none,
  some, arith, ltb, Bool-cases, if◌then◌else◌, lt_of_ltb, le_of_ltb, ltb-lt, ltb-le,
}
use allocator_bench.Radix.{Ring, Tree, leaf, node, primary, is_leaf, get_smaller_node}
use allocator_bench.Radix.Spec.{All, All-imp, All-prefix, heap_below, IsRadix}
use allocator_bench.Radix.Digits.{lt_of_div-lt}

-- The ring `c` hangs somewhere in the tree.
abbrev pub Holds : Ring → Tree → Type 0
Holds c leaf = ⊥
Holds c (node d l r) = (c ≡ d) ⊎ (Holds c l ⊎ Holds c r)

-- A candidate that the loop has met: larger than the key wanted.
abbrev pub Above : ℕ → Option Ring → Type 0
Above key none = Unit
Above key (some f) = key < f.key

-- Every key of the tree lies above, below the candidate.
abbrev pub Under : Tree → Option Ring → Type 0
Under t none = Unit
Under t (some g) = All (λ k. k < g.key) t

abbrev pub Over : Tree → Option Ring → Type 0
Over t none = Unit
Over t (some f) = All (λ k. f.key < k) t

-- The candidate on the path is smaller than the one beside it.
abbrev pub Before : Option Ring → Option Ring → Type 0
Before (some f) (some g) = f.key < g.key
Before f g = Unit

-- No larger than the candidate, if there is one.
abbrev pub AtMost : ℕ → Option Ring → Type 0
AtMost x none = Unit
AtMost x (some f) = x ≤ f.key

-- What the loop returns, from the candidates `found` and `gt_tree` and the subtree `t`: the least
-- key of all these that is `key` or more.
abbrev pub Fits : ℕ → Option Ring → Option Ring → Tree → Option Ring → Type 0
Fits key found gt_tree t none = (found ≡ none) × (gt_tree ≡ none) × All (λ k. k < key) t
Fits key found gt_tree t (some c) =
    (key ≤ c.key)
    × All (λ k. (k < key) ⊎ (c.key ≤ k)) t
    × AtMost c.key found
    × AtMost c.key gt_tree
    × ((Holds c t) ⊎ ((found ≡ some c) ⊎ (gt_tree ≡ some c)))

-- What the loop's next value of `found` is worth, at the node `c`, for the subtree it goes to.
pub record Candidate (key : ℕ) (c : Ring) (l r : Tree) (found gt_tree found' : Option Ring)
    : Type 0 where
  pub above : Above key found'
  pub over : Over l found' × Over r found'
  pub before : Before found' gt_tree
  pub at_most : (x : ℕ) → AtMost x found' → AtMost x found × ((c.key < key) ⊎ (x ≤ c.key))
  pub is_some : (x : Ring) → found' ≡ some x → (found ≡ some x) ⊎ (x ≡ c)
  pub is_none : found' ≡ none → (found ≡ none) × (c.key < key)

-- What the loop's next value of `gt_tree` is worth when it goes left.
pub record Beside (key : ℕ) (l r : Tree) (gt_tree next : Option Ring) : Type 0 where
  pub above : Above key next
  pub under : Under l next
  pub before : (f : Option Ring) → Over r f → Before f gt_tree → Before f next
  pub at_most : (x : ℕ) → AtMost x next → AtMost x gt_tree × All (λ k. x ≤ k) r
  pub is_some : (x : Ring) → next ≡ some x → (gt_tree ≡ some x) ⊎ Holds x r
  pub is_none : next ≡ none → (gt_tree ≡ none) × All (λ k. k < key) r

pub AtMost-trans : (x y : ℕ) (g : Option Ring) → x ≤ y → AtMost y g → AtMost x g
AtMost-trans x y none h a = tt
AtMost-trans x y (some g) h a = omega arith

pub Under-root : (d : Ring) (u v : Tree) (g : Option Ring) → Under (node d u v) g → AtMost d.key g
Under-root d u v none h = tt
Under-root d u v (some g) h = omega arith

pub Over-root : (d : Ring) (u v : Tree) (f : Option Ring) → Over (node d u v) f → Before f (some d)
Over-root d u v none h = tt
Over-root d u v (some f) h = h.0

pub next_gt :
    (key bits m : ℕ) (l r : Tree) (gt_tree : Option Ring)
    → IsRadix bits m r
    → All (λ k. key < k) r
    → ((x : Ring) → Holds x r → All (λ k. k < x.key) l)
    → Above key gt_tree
    → Under l gt_tree
    → Under r gt_tree
    → Beside key l r gt_tree (if is_leaf r then gt_tree else primary r)
next_gt key bits m l leaf gt_tree order more beyond above under_l under_r = record {
  above = above;
  under = under_l;
  before = λ f o b. b;
  at_most = λ x h. (h, tt);
  is_some = λ x e. inl e;
  is_none = λ e. (e, tt);
}
next_gt key bits m l (node d u v) gt_tree order more beyond above under_l under_r =
    let heap = heap_below bits m d u v order in
    record {
      above = more.0;
      under = beyond d (inl refl);
      before = λ f o b. Over-root d u v f o;
      at_most = λ x h. (
        AtMost-trans x d.key gt_tree h (Under-root d u v gt_tree under_r),
        (h, All-imp _ _ (λ k lt. omega arith) u heap.0, All-imp _ _ (λ k lt. omega arith) v heap.1),
      );
      is_some = λ x e. inr (inl (cc));
      is_none = λ e. cc;
    }

module _ (key bits m : ℕ) (c : Ring) (l r : Tree) (gt_tree : Option Ring)
    (order : IsRadix (suc bits) m (node c l r)) (prefix : key / 2 ^ suc bits ≡ m)
    (above_gt : Above key gt_tree) (under : Under (node c l r) gt_tree) where
  pub Before-self : Before (some c) gt_tree
  Before-self = go gt_tree under
    where
      go : (g : Option Ring) → Under (node c l r) g → Before (some c) g
      go none u = tt
      go (some g) u = u.0

  pub Candidate-new : key < c.key → Candidate key c l r none gt_tree (some c)
  Candidate-new lt = record {
    above = lt;
    over = (order.1, order.2);
    before = Before-self;
    at_most = λ x h. (tt, inr h);
    is_some = λ x e. inr (cc);
    is_none = λ e. cc;
  }

  pub Candidate-old :
      (found : Option Ring)
      → Above key found
      → Over (node c l r) found
      → Before found gt_tree
      → (found ≡ none → c.key < key)
      → Candidate key c l r found gt_tree found
  Candidate-old none above over before less = record {
    above = above;
    over = (tt, tt);
    before = before;
    at_most = λ x h. (tt, inl (less refl));
    is_some = λ x e. inl e;
    is_none = λ e. (e, less refl);
  }
  Candidate-old (some f) above over before less = record {
    above = above;
    over = (over.1, over.2);
    before = before;
    at_most = λ x h. (h, inr (omega arith));
    is_some = λ x e. inl e;
    is_none = λ e. cc;
  }

  pub next_found :
      (found : Option Ring)
      → Above key found
      → Over (node c l r) found
      → Before found gt_tree
      → c.key ≢ key
      → Candidate key c l r found gt_tree
          (if ltb key c.key then some (get_smaller_node c found) else found)
  unfolding get_smaller_node
  next_found none above over before ne = elim (Bool-cases (ltb key c.key)) [
    | inl lt ↦ rw lt (Candidate-new (lt_of_ltb key c.key lt))
    | inr ge ↦
        let le = le_of_ltb key c.key ge in
        rw ge (Candidate-old none above over before (λ e. omega arith))
  ]
  next_found (some f) above over before ne =
      let lt : ltb key c.key ≡ true = ltb-lt key c.key (omega arith) in
      let not_smaller : ltb c.key f.key ≡ false = ltb-le c.key f.key (omega arith) in
      rw (lt, not_smaller) (Candidate-old (some f) above over before (λ e. cc))

  pub left_less : key / 2 ^ bits ≡ 2 * m + 1 → All (λ k. k < key) l
  left_less e =
      All-imp _ _ (λ k h. lt_of_div-lt k key (2 ^ bits) (omega arith)) l
        (All-prefix bits (2 * m) l order.3)

  pub right_more : (x : ℕ) → x / 2 ^ bits ≡ 2 * m → All (λ k. x < k) r
  right_more x e =
      All-imp _ _ (λ k h. lt_of_div-lt x k (2 ^ bits) (omega arith)) r
        (All-prefix bits (2 * m + 1) r order.4)

  pub right-Fits :
      {found found' : Option Ring}
      → Candidate key c l r found gt_tree found'
      → key / 2 ^ bits ≡ 2 * m + 1
      → (res : Option Ring) → Fits key found' gt_tree r res
      → Fits key found gt_tree (node c l r) res
  right-Fits cand half none (no_found, no_gt, less) =
      let (old, small) = cand.is_none no_found in (old, no_gt, (small, left_less half, less))
  right-Fits {found} cand half (some x) (fits, least, at_found, at_gt, holds) =
      let (old, small) = cand.at_most x.key at_found in
      (
        fits,
        (small, All-imp _ _ (λ k h. inl h) l (left_less half), least),
        old,
        at_gt,
        elim holds [
          | inl here ↦ inl (inr (inr here))
          | inr (inl e) ↦ elim (cand.is_some x e) [
            | inl before ↦ inr (inl before)
            | inr same ↦ inl (inl same)
          ]
          | inr (inr e) ↦ inr (inr e)
        ],
      )

  pub left-Fits :
      {found found' next : Option Ring}
      → Candidate key c l r found gt_tree found'
      → Beside key l r gt_tree next
      → (res : Option Ring) → Fits key found' next l res
      → Fits key found gt_tree (node c l r) res
  left-Fits cand side none (no_found, no_gt, less) =
      let (old, small) = cand.is_none no_found in
      let (old_gt, small_r) = side.is_none no_gt in (old, old_gt, (small, less, small_r))
  left-Fits cand side (some x) (fits, least, at_found, at_gt, holds) =
      let (old, small) = cand.at_most x.key at_found in
      let (old_gt, right) = side.at_most x.key at_gt in
      (
        fits,
        (small, least, All-imp _ _ (λ k h. inr h) r right),
        old,
        old_gt,
        elim holds [
          | inl here ↦ inl (inr (inl here))
          | inr (inl e) ↦ elim (cand.is_some x e) [
            | inl before ↦ inr (inl before)
            | inr same ↦ inl (inl same)
          ]
          | inr (inr e) ↦ elim (side.is_some x e) [
            | inl before ↦ inr (inr before)
            | inr there ↦ inl (inr (inr there))
          ]
        ],
      )
