-- ===== src/Tracker/Lookup.antt =====
-- The searches of utils/addrtracker.c, by the list of the nodes in order.
use Prim.Native.Nat.{Ordering}
use mathlib.Core.Path.{subst}
use allocator_bench.Base.{
  ℕ, ◌-◌, ◌^◌, ◌<◌, ◌≤◌, ◌≡◌, ◌⊎◌, inl, inr, refl, sym, ap, ◌∙◌, Bool, true, false, Option, none,
  some, List, [], ◌∷◌, ◌++◌, arith, ltb, leb, if◌then◌else◌, if_cases, Bool-cases, Option-cases, ok,
}
use allocator_bench.Avl.{Node, Tree, leaf, node, find_with_node, first_some}
use allocator_bench.Avl.Spec.{items}
use allocator_bench.Avl.Sorted.{AllNodes, AllNodes-both, AllNodes-parts, first_geq, last_leq}
use allocator_bench.Avl.Search.{searches}
use allocator_bench.Tracker.{
  Nodes, Tracker, end_of, compare_node, to_tracker, find_node, within, find_first_node_in_range,
  ends_by, is_empty_for_range,
}
use allocator_bench.Tracker.Spec.{
  end_at, IsInside, IsApart, IsValid, first_with, contains, is_within, all_apart, end_of_lem,
  IsApart-parts,
}

first_with-skip :
    (test : Node → Bool) (xs ys : List Node)
    → AllNodes (λ x. test x ≡ false) xs
    → first_with test (xs ++ ys) ≡ first_with test ys
first_with-skip test [] ys h = refl
first_with-skip test (x ∷ xs) ys h = rw h.0 (first_with-skip test xs ys h.1)

first_with-none :
    (test : Node → Bool) (xs : List Node)
    → AllNodes (λ x. test x ≡ false) xs
    → first_with test xs ≡ none
first_with-none test [] h = refl
first_with-none test (x ∷ xs) h = rw h.0 (first_with-none test xs h.1)

first_with-left :
    (test : Node → Bool) (xs ys : List Node)
    → AllNodes (λ x. test x ≡ false) ys
    → first_with test (xs ++ ys) ≡ first_with test xs
first_with-left test [] ys h = first_with-none test ys h
first_with-left test (x ∷ xs) ys h = ground (arith, first_with-left test xs ys h)

-- The three cases of the comparison with a node.
compare_node_cases :
    (nodes : Nodes) (addr : ℕ) (x : Node)
    → ((compare_node nodes addr x ≡ Ordering.eq) × (contains nodes addr x ≡ true))
      ⊎ (((compare_node nodes addr x ≡ Ordering.lt) × (addr < (nodes x.id).addr))
          ⊎ ((compare_node nodes addr x ≡ Ordering.gt)
              × ((nodes x.id).addr ≤ addr)
              × (end_of (nodes x.id) ≤ addr)))
compare_node_cases nodes addr x = elim (Bool-cases (contains nodes addr x)) [
  | inl here ↦ inl (rw here refl, here)
  | inr miss ↦ elim (Bool-cases (ltb addr (nodes x.id).addr)) [
    | inl less ↦ inr (inl (rw (miss, less) refl, ground arith))
    | inr more ↦ inr (inr (rw (miss, more) refl, ground arith, ground arith))
  ]
]

-- A range that ends by an address, or begins after it, does not contain it.
pub contains-past :
    (nodes : Nodes) (addr : ℕ) (x : Node)
    → end_of (nodes x.id) ≤ addr
    → contains nodes addr x ≡ false
contains-past nodes addr x past = elim (Bool-cases (contains nodes addr x)) [
  | inl here ↦ absurd (ground arith)
  | inr miss ↦ miss
]

contains-ahead :
    (nodes : Nodes) (addr : ℕ) (x : Node) → addr < (nodes x.id).addr → contains nodes addr x ≡ false
contains-ahead nodes addr x ahead = elim (Bool-cases (contains nodes addr x)) [
  | inl here ↦ absurd (ground arith)
  | inr miss ↦ miss
]

find_with_node_lem :
    (nodes : Nodes) (tracker : Tracker) (addr : ℕ) (t : Tree)
    → tracker.after_hi ≤ 2 ^ 63
    → AllNodes (IsInside nodes tracker) (items t)
    → IsApart nodes (items t)
    → find_with_node (compare_node nodes addr) t ≡ first_with (contains nodes addr) (items t)
unfolding find_with_node
find_with_node_lem nodes tracker addr leaf top ins a = refl
find_with_node_lem nodes tracker addr (node l x h r) top ins a =
    let test : Node → Bool = contains nodes addr in
    let (before_x, after_x, al, ar) = IsApart-parts nodes (items l) x (items r) a in
    let (il, (ix, ir)) = AllNodes-parts (IsInside nodes tracker) (items l) (x ∷ items r) ins in
    let skip_left : x.key ≤ addr
        → first_with test (items l ++ (x ∷ items r)) ≡ first_with test (x ∷ items r) =
      λ le. first_with-skip test (items l) (x ∷ items r) (
        AllNodes-both (λ y. end_at nodes y ≤ x.key) (IsInside nodes tracker) (λ y. test y ≡ false)
          (items l)
          (λ y low i.
            contains-past nodes addr y (omega (arith, end_of_lem nodes tracker y top i, low, le)))
          before_x il) in
    elim (compare_node_cases nodes addr x) [
      | inl (c, here) ↦
          rw (c, find_with_node) (sym (skip_left (ground (arith, ix.key, here)) ∙ rw here refl))
      | inr (inl (c, less)) ↦
          rw (c, find_with_node)
            (find_with_node_lem nodes tracker addr l top il al
              ∙ sym (
                  first_with-left test (items l) (x ∷ items r) (
                    contains-ahead nodes addr x less,
                    AllNodes-both (λ y. end_at nodes x ≤ y.key) (IsInside nodes tracker)
                        (λ y. test y ≡ false) (items r)
                        (λ y high i.
                          contains-ahead nodes addr y (omega (arith, high, i.key, less, ix.key)))
                        after_x ir,
                  )))
      | inr (inr (c, ge, past)) ↦
          rw (c, find_with_node)
            (find_with_node_lem nodes tracker addr r top ir ar
              ∙ sym (
                  skip_left (omega (arith, ix.key, ge))
                  ∙ rw (contains-past nodes addr x past) refl))
    ]

-- In a valid tracker the node found for an address is the one whose range contains it, if any does.
pub find_node_lem :
    (nodes : Nodes) (tracker : Tracker) (addr : ℕ)
    → IsValid nodes tracker
    → find_node nodes tracker addr
      ≡ to_tracker (first_with (contains nodes addr) (items tracker.tree.root))
unfolding find_node
find_node_lem nodes tracker addr v =
    ap to_tracker (find_with_node_lem nodes tracker addr tracker.tree.root v.top v.inside v.apart)

first_within :
    (nodes : Nodes) (tracker : Tracker) (lo after_hi : ℕ) (xs : List Node)
    → tracker.after_hi ≤ 2 ^ 63
    → AllNodes (IsInside nodes tracker) xs
    → IsApart nodes xs
    → within nodes after_hi (to_tracker (first_geq lo xs))
      ≡ to_tracker (first_with (is_within nodes lo after_hi) xs)
first_within nodes tracker lo after_hi [] top ins a = refl
first_within nodes tracker lo after_hi (x ∷ xs) top ins a =
    let rest = first_within nodes tracker lo after_hi xs top ins.1 a.1 in
    let x_key : (nodes x.id).addr ≡ x.key = ins.0.key in
    let ends = end_of_lem nodes tracker x top ins.0 in
    elim (Bool-cases (leb lo x.key)) [
      | inl high ↦ elim (Bool-cases (leb (end_of (nodes x.id)) after_hi)) [
        | inl fits ↦ ground arith
        | inr long ↦
            let none_fits = first_with-none (is_within nodes lo after_hi) xs (
              AllNodes-both (λ y. end_at nodes x ≤ y.key) (IsInside nodes tracker)
                (λ y. is_within nodes lo after_hi y ≡ false) xs
                (λ y far i. ground (arith, i.key, end_of_lem nodes tracker y top i)) a.0 ins.1) in
            ground (arith, none_fits)
      ]
      | inr low ↦ ground arith
    ]

-- What holds of every node of a list holds of the one that is found.
abbrev HoldsFor : (Node → Type 0) → Option Node → Type 0
HoldsFor P none = Unit
HoldsFor P (some x) = P x

first_some-HoldsFor :
    (P : Node → Type 0) (a b : Option Node)
    → HoldsFor P a
    → HoldsFor P b
    → HoldsFor P (first_some a b)
first_some-HoldsFor P none b h k = k
first_some-HoldsFor P (some a) b h k = h

last_leq-HoldsFor :
    (P : Node → Type 0) (key : ℕ) (xs : List Node) → AllNodes P xs → HoldsFor P (last_leq key xs)
last_leq-HoldsFor P key [] h = tt
last_leq-HoldsFor P key (x ∷ xs) h =
    first_some-HoldsFor P (last_leq key xs) (if leb x.key key then some x else none)
      (last_leq-HoldsFor P key xs h.1)
      (if_cases (HoldsFor P) (leb x.key key) (some x) none (λ _. h.0) (λ _. tt))

AllNodes-last_leq :
    (P : Node → Type 0) (key : ℕ) (xs : List Node) (y : Node)
    → AllNodes P xs
    → last_leq key xs ≡ some y
    → P y
AllNodes-last_leq P key xs y h e = subst (HoldsFor P) e (last_leq-HoldsFor P key xs h)

last_leq-apart :
    (nodes : Nodes) (tracker : Tracker) (lo after_hi : ℕ) (xs : List Node)
    → tracker.after_hi ≤ 2 ^ 63
    → lo < after_hi
    → AllNodes (IsInside nodes tracker) xs
    → IsApart nodes xs
    → ends_by nodes lo (to_tracker (last_leq (after_hi - 1) xs)) ≡ all_apart nodes lo after_hi xs
last_leq-apart nodes tracker lo after_hi [] top lt ins a = refl
last_leq-apart nodes tracker lo after_hi (x ∷ xs) top lt ins a =
    let rest = last_leq-apart nodes tracker lo after_hi xs top lt ins.1 a.1 in
    let x_key : (nodes x.id).addr ≡ x.key = ins.0.key in
    let ends = end_of_lem nodes tracker x top ins.0 in
    elim (Option-cases (last_leq (after_hi - 1) xs)) [
      | inl n ↦
          let all : all_apart nodes lo after_hi xs ≡ true =
            sym rest ∙ ap (λ o. ends_by nodes lo (to_tracker o)) n in
          rw (n, all) (ground arith)
      | inr (y, found) ↦
          let y_ends =
            end_of_lem nodes tracker y top
              (AllNodes-last_leq (IsInside nodes tracker) (after_hi - 1) xs y ins.1 found) in
          let far = AllNodes-last_leq (λ z. end_at nodes x ≤ z.key) (after_hi - 1) xs y a.0 found in
          let all : all_apart nodes lo after_hi xs ≡ leb (end_of (nodes y.id)) lo =
            sym rest ∙ ap (λ o. ends_by nodes lo (to_tracker o)) found in
          rw (found, all) (ground arith)
    ]

-- In a valid tracker and for a range that is not empty: the node found for the range is the first of
-- those inside it, and the range is empty if no node's range reaches into it, as long as it ends by
-- 2^63.
pub ranges :
    (nodes : Nodes) (tracker : Tracker) (lo after_hi : ℕ)
    → IsValid nodes tracker
    → lo < after_hi
    → after_hi ≤ 2 ^ 63
    → (find_first_node_in_range nodes tracker lo after_hi
        ≡ ok (to_tracker (first_with (is_within nodes lo after_hi) (items tracker.tree.root))))
      × (is_empty_for_range nodes tracker lo after_hi
          ≡ ok (all_apart nodes lo after_hi (items tracker.tree.root)))
unfolding find_first_node_in_range is_empty_for_range
ranges nodes tracker lo after_hi v some_range small =
    let meant : ltb lo after_hi ≡ true = ground arith in
    let from_lo = (searches (2 ^ 63) lo tracker.tree v.tree (omega arith)).1 in
    let from_hi = (searches (2 ^ 63) (after_hi - 1) tracker.tree v.tree (omega arith)).2 in
    (
      rw (meant, from_lo)
          (ap ok (
            first_within nodes tracker lo after_hi (items tracker.tree.root) v.top v.inside
              v.apart)),
      rw (meant, from_hi)
          (ap ok (
            last_leq-apart nodes tracker lo after_hi (items tracker.tree.root) v.top some_range
              v.inside v.apart)),
    )
