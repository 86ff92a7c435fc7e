-- ===== src/Avl/Insert.antt =====
-- Insertion into a tree of utils/avl.c is insertion into its sorted list.
use Prim.Native.Nat.{Ordering, compare}
use mathlib.Core.List.{append_assoc, append-nil}
use mathlib.Core.Path.{subst}
use allocator_bench.Base.{
  ℕ, ◌+◌, ◌<◌, ◌≡◌, ◌⊎◌, inl, inr, refl, sym, ap, ◌∙◌, max, false, Option, none, some, List, [],
  ◌∷◌, ◌++◌, arith, ltb, Bool-cases, eq_or_ne, Returns, Returns-bind,
}
use allocator_bench.Avl.{
  Node, Tree, leaf, node, Frame, from_left, from_right, AvlTree, get_height, Place, taken, vacant,
  descend, link_at, is_linked, insert_or_return_existing, rebalance_above,
}
use allocator_bench.Avl.Spec.{items, before, after, IsAvl, IsContext, items-plug}
use allocator_bench.Avl.Climb.{Balanced, around, grow-Balanced}
use allocator_bench.Avl.Sorted.{
  Below, Above, IsSorted, count_id, count_id-append, find_key, insert_sorted, IsValid, AllNodes-imp,
  AllNodes-append, AllNodes-parts, IsSorted-parts, IsSorted-split, IsSorted-join, find_key-Below,
  find_key-Above, insert_sorted-between,
}

-- A node that the list does not have is not linked.
pub is_linked-absent : (id : ℕ) (t : Tree) → count_id id (items t) ≡ 0 → is_linked id t ≡ false
unfolding is_linked
is_linked-absent id leaf absent = refl
is_linked-absent id (node l x h r) absent = ground (
  arith,
  count_id-append id (items l) (x ∷ items r),
  is_linked-absent id l,
  is_linked-absent id r,
)

pub compare_cases :
    (a b : ℕ)
    → ((compare a b ≡ Ordering.lt) × (a < b))
      ⊎ (((compare a b ≡ Ordering.eq) × (a ≡ b)) ⊎ ((compare a b ≡ Ordering.gt) × (b < a)))
compare_cases a b = elim (eq_or_ne a b) [
  | inl e ↦ inr (inl (ground arith, e))
  | inr ne ↦ elim (Bool-cases (ltb a b)) [
    | inl lt ↦ inl (ground arith, ground arith)
    | inr ge ↦ inr (inr (ground arith, ground arith))
  ]
]

-- Where the descent for `key` ends, in a tree with these nodes.
abbrev Descended : ℕ → List Node → Place → Type 0
Descended key nodes (taken existing) = find_key key nodes ≡ some existing
Descended key nodes (vacant above) =
    (before above ++ after above ≡ nodes)
    × Below key (before above)
    × Above key (after above)
    × IsContext 0 above

descend-Descended :
    (key bound : ℕ) (cmp : ℕ → Ordering) (t : Tree) (above : List Frame)
    → ((k : ℕ) → k < bound → cmp k ≡ compare key k)
    → IsAvl t
    → IsContext (get_height t) above
    → IsSorted (items t)
    → Below bound (items t)
    → Below key (before above)
    → Above key (after above)
    → Descended key (around t above) (descend cmp t above)
unfolding descend
descend-Descended key bound cmp leaf above agree avl ctx s small low high = (refl, low, high, ctx)
descend-Descended key bound cmp (node l x h r) above agree (e, p, q, al, ar) ctx s small low high =
    let parts = IsSorted-parts (items l) x (items r) s in
    let (small_l, small_r) = AllNodes-parts (λ z. z.key < bound) (items l) (x ∷ items r) small in
    let here : cmp x.key ≡ compare key x.key = agree x.key small_r.0 in
    let ctx' : IsContext (1 + max (get_height l) (get_height r)) above = rw e at ctx in
    elim (compare_cases key x.key) [
      | inl (c, lt) ↦
          rw (here ∙ c, descend)
            (subst (λ ns. Descended key ns (descend cmp l (from_left x h r ∷ above)))
              (sym (items-plug (from_left x h r) l above))
              (descend-Descended key bound cmp l (from_left x h r ∷ above) agree al (p, q, ar, ctx')
                parts.2 small_l low
                (
                  lt,
                  AllNodes-append (λ z. key < z.key) (items r) (after above)
                      (AllNodes-imp (λ z. x.key < z.key) (λ z. key < z.key) (items r)
                        (λ z k. omega arith) parts.1)
                      high,
                )))
      | inr (inl (c, same)) ↦
          rw (here ∙ c, descend)
            (find_key-Below key (before above) (items (node l x h r) ++ after above) low
              ∙ ap (find_key key) (append_assoc (items l) (x ∷ items r) (after above))
              ∙ find_key-Below key (items l) (x ∷ (items r ++ after above)) (rw same parts.0)
              ∙ ground arith)
      | inr (inr (c, gt)) ↦
          rw (here ∙ c, descend)
            (subst (λ ns. Descended key ns (descend cmp r (from_right l x h ∷ above)))
              (sym (items-plug (from_right l x h) r above))
              (descend-Descended key bound cmp r (from_right l x h ∷ above) agree ar
                (p, q, al, ctx') parts.3 small_r.1
                (AllNodes-append (λ z. z.key < key) (before above) (items l ++ (x ∷ [])) low
                  (AllNodes-append (λ z. z.key < key) (items l) (x ∷ [])
                    (AllNodes-imp (λ z. z.key < x.key) (λ z. z.key < key) (items l)
                      (λ z k. omega arith) parts.0)
                    (gt, tt)))
                high))
    ]

-- What an insertion comes to: the node that has the key already, and the tree as it was; or none,
-- and the tree with the node in the order of its key.
abbrev pub Inserted : ℕ → AvlTree → Node → Option Node × AvlTree → Type 0
Inserted bound tree x (some existing, tree') =
    (tree' ≡ tree) × (find_key x.key (items tree.root) ≡ some existing)
Inserted bound tree x (none, tree') =
    IsValid bound tree'
    × (find_key x.key (items tree.root) ≡ none)
    × (items tree'.root ≡ insert_sorted x (items tree.root))
    × (tree'.compare ≡ tree.compare)

-- Insertion of a node that is not in the tree, with a key below the bound, into a valid tree fails no
-- assertion. If a node of the tree has the key, it is returned and the tree is as before; else the tree is valid again, balanced
-- included, and its nodes are those of before with the new one in the place of its key.
pub insert_or_return_existing-Inserted :
    (bound : ℕ) (tree : AvlTree) (x : Node)
    → IsValid bound tree
    → x.key < bound
    → count_id x.id (items tree.root) ≡ 0
    → Returns (Inserted bound tree x) (insert_or_return_existing tree x)
unfolding insert_or_return_existing link_at
insert_or_return_existing-Inserted bound tree x v small absent =
    rw (is_linked-absent x.id tree.root absent) (
      at_place (descend (tree.compare x.key) tree.root []) (
        subst (λ ns. Descended x.key ns (descend (tree.compare x.key) tree.root []))
          (append-nil (items tree.root))
          (descend-Descended x.key bound (tree.compare x.key) tree.root []
            (λ k lt. v.compares x.key k small lt) v.avl tt v.sorted v.bounded tt tt)))
  where
    at_place :
        (place : Place)
        → Descended x.key (items tree.root) place
        → Returns (Inserted bound tree x) (link_at x tree place)
    at_place (taken existing) d = (refl, d)
    at_place (vacant above) (whole, low, high, ctx) =
        Returns-bind (Balanced (around (node leaf x 1 leaf) above)) (Inserted bound tree x)
          (rebalance_above false (node leaf x 1 leaf) above) _
          (grow-Balanced 0 (node leaf x 1 leaf) above ctx (record {
            avl = (omega arith, omega arith, omega arith, tt, tt);
            same = refl;
            height = inr (refl, inr refl);
          }))
          (λ t (avl, nodes).
            let parts = IsSorted-split (before above) (after above) (rw whole v.sorted) in
            let small_parts =
              AllNodes-parts (λ z. z.key < bound) (before above) (after above)
                (rw whole v.bounded) in
            (
              record {
                avl = avl;
                sorted =
                    rw nodes
                      (IsSorted-join (before above) x (after above) low high parts.0 parts.1);
                bounded = rw nodes (
                    AllNodes-append (λ z. z.key < bound) (before above) (x ∷ after above)
                      small_parts.0 (small, small_parts.1));
                compares = v.compares;
              },
              ap (find_key x.key) (sym whole)
                  ∙ find_key-Below x.key (before above) (after above) low
                  ∙ find_key-Above x.key (after above) high,
              nodes
                  ∙ sym (insert_sorted-between x (before above) (after above) low high)
                  ∙ ap (insert_sorted x) whole,
              refl,
            ))
