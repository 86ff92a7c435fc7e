-- ===== src/Radix/Insert.antt =====
-- `radixTreeInsert`: the new node joins the others, and the tree stays in order.
use allocator_bench.Base.{
  ℕ, zero, suc, ◌+◌, ◌*◌, ◌/◌, ◌^◌, ◌<◌, ◌≤◌, ◌≡◌, refl, ◌⊎◌, inl, inr, true, [], ◌∷◌, arith, ltb,
  ltb-lt, ◌||◌, ◌&&◌, not, ◌==◌, ==-eq, eq_of_==, ne_of_==, lt_of_ltb, le_of_ltb, ◌≢◌, Bool-cases,
  if◌then◌else◌, ok, ◌>>=◌, Returns, Returns-bind,
}
use allocator_bench.Radix.{
  Ring, Tree, leaf, node, RadixTree, list_init, list_insert, is_bit_set, insert_loop, insert,
  is_linked,
}
use allocator_bench.Radix.Spec.{
  All, All-imp, IsRadix, IsValid, count-append, in_ring, occurs, is_linked-absent,
}
use allocator_bench.Radix.Digits.{prefix_right, prefix_left, div-eq-zero}

-- What one insertion of the ring `new` into `t` comes to.
record Inserted (bits m : ℕ) (new : Ring) (t t' : Tree) : Type 0 where
  ordered : IsRadix bits m t'
  above : (x : ℕ) → x < new.key → All (λ k. x < k) t → All (λ k. x < k) t'
  nodes : (k i : ℕ) → occurs k i t' ≡ occurs k i t + in_ring k i new

-- The node that the loop carries is the new one itself, or one that the new one has displaced.
abbrev IsCarried : ℕ → Ring → Tree → Type 0
IsCarried key new t =
    ((new.key ≡ key) × (new.rest ≡ [])) ⊎ ((key < new.key) × All (λ k. new.key < k) t)

abbrev Good : (key bits m : ℕ) → Ring → Tree → Type 0
Good key bits m new t = Returns (Inserted bits m new t) (insert_loop key bits new t)

Inserted-same :
    (key bits m : ℕ) (new c : Ring) (l r : Tree)
    → IsRadix bits m (node c l r)
    → c.key ≡ new.key
    → new.rest ≡ []
    → IsRadix bits m (node (list_insert new.first c) l r)
    → Inserted bits m new (node c l r) (node (list_insert new.first c) l r)
unfolding occurs
Inserted-same key bits m new c l r ordered same alone ordered' = record {
  ordered = ordered';
  above = λ x h a. a;
  nodes = λ k i. rw alone (ground (arith, count-append i c.rest (new.first ∷ [])));
}

-- One round of the loop: `small` is left at the node, and `large` goes on below it.
module _ (key bits m : ℕ) (new c small large : Ring) (l r : Tree)
    (order : IsRadix (suc bits) m (node c l r)) (lt : small.key < large.key)
    (small_prefix : small.key / 2 ^ suc bits ≡ m) (large_prefix : large.key / 2 ^ suc bits ≡ m)
    (low : All (λ k. small.key < k) l × All (λ k. small.key < k) r)
    (bound : (x : ℕ) → x < new.key → x < c.key → (x < small.key) × (x < large.key))
    (same : (k i : ℕ)
      → in_ring k i small + in_ring k i large ≡ in_ring k i c + in_ring k i new) where
  Inserted-right :
      {r' : Tree}
      → Inserted bits (2 * m + 1) large r r'
      → Inserted (suc bits) m new (node c l r) (node small l r')
  unfolding occurs
  Inserted-right done = record {
    ordered = (small_prefix, low.0, done.above small.key lt low.1, order.3, done.ordered);
    above = λ x h a. ((bound x h a.0).0, a.1, done.above x (bound x h a.0).1 a.2);
    nodes = λ k i. omega (arith, done.nodes k i, same k i);
  }

  Inserted-left :
      {l' : Tree}
      → Inserted bits (2 * m) large l l'
      → Inserted (suc bits) m new (node c l r) (node small l' r)
  unfolding occurs
  Inserted-left done = record {
    ordered = (small_prefix, done.above small.key lt low.0, low.1, done.ordered, order.4);
    above = λ x h a. ((bound x h a.0).0, done.above x (bound x h a.0).1 a.1, a.2);
    nodes = λ k i. omega (arith, done.nodes k i, same k i);
  }

  round :
      ((m' : ℕ) → IsRadix bits m' r → large.key / 2 ^ bits ≡ m' → Good key bits m' large r)
      → ((m' : ℕ) → IsRadix bits m' l → large.key / 2 ^ bits ≡ m' → Good key bits m' large l)
      → Returns (Inserted (suc bits) m new (node c l r)) (
          if is_bit_set large.key bits
          then insert_loop key bits large r >>= (λ r'. ok (node small l r'))
          else insert_loop key bits large l >>= (λ l'. ok (node small l' r)))
  round at_right at_left = elim (Bool-cases (is_bit_set large.key bits)) [
    | inl set ↦ rw set (
        Returns-bind (Inserted bits (2 * m + 1) large r) (Inserted (suc bits) m new (node c l r))
          (insert_loop key bits large r) (λ r'. ok (node small l r'))
          (at_right (2 * m + 1) order.4 (prefix_right large.key bits m large_prefix set))
          (λ r' done. Inserted-right done))
    | inr clear ↦ rw clear (
        Returns-bind (Inserted bits (2 * m) large l) (Inserted (suc bits) m new (node c l r))
          (insert_loop key bits large l) (λ l'. ok (node small l' r))
          (at_left (2 * m) order.3 (prefix_left large.key bits m large_prefix clear))
          (λ l' done. Inserted-left done))
  ]

-- A carried node that is not displaced is the new one, and one that is has all keys above it.
key_lt_of_displaced :
    (key : ℕ) (new c : Ring) (l r : Tree)
    → IsCarried key new (node c l r)
    → new.key < c.key
    → key < c.key
key_lt_of_displaced key new c l r (inl h) lt = omega arith
key_lt_of_displaced key new c l r (inr h) lt = omega arith

is_new_of_not_displaced :
    (key : ℕ) (new c : Ring) (l r : Tree)
    → IsCarried key new (node c l r)
    → c.key ≤ new.key
    → (new.key ≡ key) × (new.rest ≡ [])
is_new_of_not_displaced key new c l r (inl h) le = h
is_new_of_not_displaced key new c l r (inr h) le = absurd (omega arith)

-- The loop does not stop, and inserts the carried ring.
insert_loop-Inserted :
    (key bits : ℕ) (new : Ring) (t : Tree) (m : ℕ)
    → IsRadix bits m t
    → new.key / 2 ^ bits ≡ m
    → IsCarried key new t
    → Good key bits m new t
unfolding insert_loop occurs
insert_loop-Inserted key zero new leaf m order pre mode = record {
  ordered = pre;
  above = λ x h a. (h, tt, tt);
  nodes = λ k i. omega arith;
}
insert_loop-Inserted key (suc bits) new leaf m order pre mode = record {
  ordered = (pre, tt, tt, tt, tt);
  above = λ x h a. (h, tt, tt);
  nodes = λ k i. omega arith;
}
insert_loop-Inserted key zero new (node c leaf leaf) m order pre (inl (is_key, alone)) =
    rw (==-eq c.key key (omega arith))
      (Inserted-same key zero m new c leaf leaf order (omega arith) alone order)
insert_loop-Inserted key zero new (node c leaf leaf) m order pre (inr (lt, above)) =
    absurd (omega arith)
insert_loop-Inserted key zero new (node c leaf (node d u v)) m order pre mode = absurd order
insert_loop-Inserted key zero new (node c (node d u v) r) m order pre mode = absurd order
insert_loop-Inserted key (suc bits) new (node c l r) m order pre mode =
    elim (Bool-cases (c.key == key)) [
      | inl hit ↦ rw hit (same (eq_of_== c.key key hit) mode)
      | inr miss ↦ rw miss (elim (Bool-cases (ltb new.key c.key)) [
        | inl lt ↦ rw lt (
            displace (λ x m' o e h. insert_loop-Inserted key bits x r m' o e h)
              (λ x m' o e h. insert_loop-Inserted key bits x l m' o e h)
              (lt_of_ltb new.key c.key lt))
        | inr ge ↦ rw ge (
            go_on (λ x m' o e h. insert_loop-Inserted key bits x r m' o e h)
              (λ x m' o e h. insert_loop-Inserted key bits x l m' o e h)
              (le_of_ltb new.key c.key ge) (ne_of_== c.key key miss))
      ])
    ]
  where
    Below : Tree → Type 0
    Below t =
        (x : Ring) (m' : ℕ)
        → IsRadix bits m' t
        → x.key / 2 ^ bits ≡ m'
        → IsCarried key x t
        → Good key bits m' x t

    same :
        c.key ≡ key
        → IsCarried key new (node c l r)
        → Inserted (suc bits) m new (node c l r) (node (list_insert new.first c) l r)
    same e (inl (is_key, alone)) =
        Inserted-same key (suc bits) m new c l r order (omega arith) alone order
    same e (inr (lt, above)) = absurd (omega arith)

    displace :
        Below r
        → Below l
        → new.key < c.key
        → Returns (Inserted (suc bits) m new (node c l r)) (
            if is_bit_set c.key bits
            then insert_loop key bits c r >>= (λ r'. ok (node new l r'))
            else insert_loop key bits c l >>= (λ l'. ok (node new l' r)))
    displace at_right at_left lt =
        let more : key < c.key = key_lt_of_displaced key new c l r mode lt in
        round key bits m new c new c l r order lt pre order.0
          (All-imp _ _ (λ k h. omega arith) l order.1, All-imp _ _ (λ k h. omega arith) r order.2)
          (λ x h h'. (h, h')) (λ k i. omega arith)
          (λ m' o e. at_right c m' o e (inr (more, order.2)))
          (λ m' o e. at_left c m' o e (inr (more, order.1)))

    go_on :
        Below r
        → Below l
        → c.key ≤ new.key
        → c.key ≢ key
        → Returns (Inserted (suc bits) m new (node c l r)) (
            if is_bit_set new.key bits
            then insert_loop key bits new r >>= (λ r'. ok (node c l r'))
            else insert_loop key bits new l >>= (λ l'. ok (node c l' r)))
    go_on at_right at_left le ne =
        let fresh = is_new_of_not_displaced key new c l r mode le in
        round key bits m new c c new l r order (omega arith) order.0 pre (order.1, order.2)
          (λ x h h'. (h', h)) (λ k i. omega arith) (λ m' o e. at_right new m' o e (inl fresh))
          (λ m' o e. at_left new m' o e (inl fresh))

-- With a valid tree, a key that fits its bits and a node that is not in the tree, `radixTreeInsert`
-- passes its assertions on the key and on the bits left, and the tree is valid again, has the same
-- width, and holds one more node: `id`, under `key`.
pub insert_lem :
    (tree : RadixTree) (id key : ℕ)
    → IsValid tree
    → key < 2 ^ tree.key_bits
    → ((k : ℕ) → occurs k id tree.root ≡ 0)
    → Returns
        (λ tree'.
          IsValid tree'
          × (tree'.key_bits ≡ tree.key_bits)
          × ((k i : ℕ)
              → occurs k i tree'.root ≡ occurs k i tree.root + in_ring k i (list_init key id)))
        (insert tree id key)
unfolding insert
insert_lem tree id key valid fits absent = rw accepted (
    Returns-bind (Inserted tree.key_bits 0 (list_init key id) tree.root) _
      (insert_loop key tree.key_bits (list_init key id) tree.root) _
      (insert_loop-Inserted key tree.key_bits (list_init key id) tree.root 0 valid
        (div-eq-zero key (2 ^ tree.key_bits) fits) (inl (refl, refl)))
      (λ t done. (done.ordered, refl, done.nodes)))
  where
    accepted :
        ((tree.key_bits == 64 || ltb key (2 ^ tree.key_bits)) && not (is_linked id tree.root))
        ≡ true
    accepted = ground (arith, ltb-lt key (2 ^ tree.key_bits), is_linked-absent id tree.root absent)
