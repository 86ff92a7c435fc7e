-- ===== src/Avl/Climb.antt =====
-- The rebalancing loop: it leaves a balanced tree with the same nodes in order.
use allocator_bench.Base.{
  ℕ, suc, ◌+◌, ◌≤◌, ◌≡◌, ◌⊎◌, inl, inr, refl, sym, ap, ◌∙◌, max, true, false, List, [], ◌∷◌, ◌++◌,
  arith, eq_or_ne, Returns, Returns-imp, Returns-bind,
}
use mathlib.Core.List.{append-nil}
use allocator_bench.Avl.{
  Node, Tree, node, Frame, from_left, from_right, plug, get_height, rebalance_node, rebalance_above,
}
use allocator_bench.Avl.Spec.{items, before, after, IsAvl, IsContext, items-plug}
use allocator_bench.Avl.Balance.{
  Lowered, IsLeaning, rebalance_node-level, rebalance_node-left, rebalance_node-right,
}

-- A subtree where a tree of height `n` was, before an insertion goes on up: as high, or one higher,
-- and then the node inserted or leaning.
pub record Grown (n : ℕ) (nodes : List Node) (t : Tree) : Type 0 where
  pub avl : IsAvl t
  pub same : items t ≡ nodes
  pub height : (get_height t ≡ n) ⊎ ((get_height t ≡ suc n) × (IsLeaning t ⊎ (n ≡ 0)))

-- The like for a removal: as high, or one lower.
pub record Shrunk (n : ℕ) (nodes : List Node) (t : Tree) : Type 0 where
  pub avl : IsAvl t
  pub same : items t ≡ nodes
  pub height : (get_height t ≡ n) ⊎ (suc (get_height t) ≡ n)

-- The result of the loop.
abbrev pub Balanced : List Node → Tree → Type 0
Balanced nodes t = IsAvl t × (items t ≡ nodes)

-- One step up of an insertion.
grow_left :
    (n m : ℕ) (x : Node) (h : ℕ) (r : Tree) (t : Tree)
    → (m ≡ 1 + max n (get_height r)) × (n ≤ get_height r + 1) × (get_height r ≤ n + 1)
    → IsAvl r
    → Grown n (items t) t
    → Returns (Grown m (items t ++ (x ∷ items r))) (rebalance_node false (node t x h r))
grow_left n m x h r t (e, p, q) ar g = elim (eq_or_ne (get_height t) (suc (suc (get_height r)))) [
  | inl tall ↦
      let lean : (false ≡ true) ⊎ IsLeaning t = elim g.height [
        | inl same ↦ absurd (omega arith)
        | inr (higher, inl leaning) ↦ inr leaning
        | inr (higher, inr empty) ↦ absurd (omega arith)
      ] in
      Returns-imp (Lowered false (get_height t) (items t ++ (x ∷ items r)))
        (Grown m (items t ++ (x ∷ items r))) (rebalance_node false (node t x h r))
        (rebalance_node-left false t x h r g.avl ar tall lean)
        (λ t' low. record {
          avl = low.avl;
          same = low.same;
          height = elim low.height [ inl e' ↦ inl (ground arith) | inr (f, e') ↦ cc ];
        })
  | inr ne ↦
      rw (rebalance_node-level false t x h r (ground (arith, g.height)) (ground (arith, g.height)))
        (record {
          avl = (refl, ground (arith, g.height), ground (arith, g.height), g.avl, ar);
          same = refl;
          height = elim (eq_or_ne (1 + max (get_height t) (get_height r)) m) [
            | inl kept ↦ inl kept
            | inr grown ↦ inr (ground (arith, g.height), inl (λ level. ground (arith, g.height)))
          ];
        })
]

grow_right :
    (n m : ℕ) (l : Tree) (x : Node) (h : ℕ) (t : Tree)
    → (m ≡ 1 + max (get_height l) n) × (get_height l ≤ n + 1) × (n ≤ get_height l + 1)
    → IsAvl l
    → Grown n (items t) t
    → Returns (Grown m (items l ++ (x ∷ items t))) (rebalance_node false (node l x h t))
grow_right n m l x h t (e, p, q) al g = elim (eq_or_ne (get_height t) (suc (suc (get_height l)))) [
  | inl tall ↦
      let lean : (false ≡ true) ⊎ IsLeaning t = elim g.height [
        | inl same ↦ absurd (omega arith)
        | inr (higher, inl leaning) ↦ inr leaning
        | inr (higher, inr empty) ↦ absurd (omega arith)
      ] in
      Returns-imp (Lowered false (get_height t) (items l ++ (x ∷ items t)))
        (Grown m (items l ++ (x ∷ items t))) (rebalance_node false (node l x h t))
        (rebalance_node-right false l x h t al g.avl tall lean)
        (λ t' low. record {
          avl = low.avl;
          same = low.same;
          height = elim low.height [ inl e' ↦ inl (ground arith) | inr (f, e') ↦ cc ];
        })
  | inr ne ↦
      rw (rebalance_node-level false l x h t (ground (arith, g.height)) (ground (arith, g.height)))
        (record {
          avl = (refl, ground (arith, g.height), ground (arith, g.height), al, g.avl);
          same = refl;
          height = elim (eq_or_ne (1 + max (get_height l) (get_height t)) m) [
            | inl kept ↦ inl kept
            | inr grown ↦ inr (ground (arith, g.height), inl (λ level. ground (arith, g.height)))
          ];
        })
]

-- One step up of a removal.
shrink_left :
    (n m : ℕ) (x : Node) (h : ℕ) (r : Tree) (t : Tree)
    → (m ≡ 1 + max n (get_height r)) × (n ≤ get_height r + 1) × (get_height r ≤ n + 1)
    → IsAvl r
    → Shrunk n (items t) t
    → Returns (Shrunk m (items t ++ (x ∷ items r))) (rebalance_node true (node t x h r))
shrink_left n m x h r t (e, p, q) ar s = elim (eq_or_ne (get_height r) (suc (suc (get_height t)))) [
  | inl tall ↦
      Returns-imp (Lowered true (get_height r) (items t ++ (x ∷ items r)))
        (Shrunk m (items t ++ (x ∷ items r))) (rebalance_node true (node t x h r))
        (rebalance_node-right true t x h r s.avl ar tall (inl refl))
        (λ t' low. record {
          avl = low.avl;
          same = low.same;
          height = elim low.height [
            | inl e' ↦ inr (ground (arith, s.height))
            | inr (f, e') ↦ inl (ground (arith, s.height))
          ];
        })
  | inr ne ↦
      rw (rebalance_node-level true t x h r (ground (arith, s.height)) (ground (arith, s.height)))
        (record {
          avl = (refl, ground (arith, s.height), ground (arith, s.height), s.avl, ar);
          same = refl;
          height = elim (eq_or_ne (1 + max (get_height t) (get_height r)) m) [
            | inl kept ↦ inl kept
            | inr lower ↦ inr (ground (arith, s.height))
          ];
        })
]

shrink_right :
    (n m : ℕ) (l : Tree) (x : Node) (h : ℕ) (t : Tree)
    → (m ≡ 1 + max (get_height l) n) × (get_height l ≤ n + 1) × (n ≤ get_height l + 1)
    → IsAvl l
    → Shrunk n (items t) t
    → Returns (Shrunk m (items l ++ (x ∷ items t))) (rebalance_node true (node l x h t))
shrink_right n m l x h t (e, p, q) al s =
    elim (eq_or_ne (get_height l) (suc (suc (get_height t)))) [
      | inl tall ↦
          Returns-imp (Lowered true (get_height l) (items l ++ (x ∷ items t)))
            (Shrunk m (items l ++ (x ∷ items t))) (rebalance_node true (node l x h t))
            (rebalance_node-left true l x h t al s.avl tall (inl refl))
            (λ t' low. record {
              avl = low.avl;
              same = low.same;
              height = elim low.height [
                | inl e' ↦ inr (ground (arith, s.height))
                | inr (f, e') ↦ inl (ground (arith, s.height))
              ];
            })
      | inr ne ↦
          rw
            (rebalance_node-level true l x h t (ground (arith, s.height))
              (ground (arith, s.height)))
            (record {
              avl = (refl, ground (arith, s.height), ground (arith, s.height), al, s.avl);
              same = refl;
              height = elim (eq_or_ne (1 + max (get_height l) (get_height t)) m) [
                | inl kept ↦ inl kept
                | inr lower ↦ inr (ground (arith, s.height))
              ];
            })
    ]

-- The nodes of the whole tree, from a place in it.
abbrev pub around : Tree → List Frame → List Node
around t above = before above ++ (items t ++ after above)

around-step :
    (f : Frame) (t t' : Tree) (above : List Frame) (u : Tree)
    → items t' ≡ items (plug f t)
    → Balanced (around t' above) u
    → Balanced (around t (f ∷ above)) u
around-step f t t' above u same (avl, whole) =
    (avl, whole ∙ ap (λ ns. before above ++ (ns ++ after above)) same ∙ items-plug f t above)

-- The loop above a subtree in which a node has been inserted.
pub grow-Balanced :
    (n : ℕ) (t : Tree) (above : List Frame)
    → IsContext n above
    → Grown n (items t) t
    → Returns (Balanced (around t above)) (rebalance_above false t above)
unfolding rebalance_above
grow-Balanced n t [] ctx g = (g.avl, sym (append-nil (items t)))
grow-Balanced n t (from_left x h r ∷ above) (p, q, ar, ctx) g =
    Returns-bind (Grown (1 + max n (get_height r)) (items t ++ (x ∷ items r)))
      (Balanced (around t (from_left x h r ∷ above))) (rebalance_node false (node t x h r)) _
      (grow_left n (1 + max n (get_height r)) x h r t (refl, p, q) ar g)
      (λ t' g'.
        Returns-imp (Balanced (around t' above)) (Balanced (around t (from_left x h r ∷ above)))
          (rebalance_above false t' above)
          (grow-Balanced (1 + max n (get_height r)) t' above ctx
            (record { avl = g'.avl; same = refl; height = g'.height }))
          (λ u done. around-step (from_left x h r) t t' above u g'.same done))
grow-Balanced n t (from_right l x h ∷ above) (p, q, al, ctx) g =
    Returns-bind (Grown (1 + max (get_height l) n) (items l ++ (x ∷ items t)))
      (Balanced (around t (from_right l x h ∷ above))) (rebalance_node false (node l x h t)) _
      (grow_right n (1 + max (get_height l) n) l x h t (refl, p, q) al g)
      (λ t' g'.
        Returns-imp (Balanced (around t' above)) (Balanced (around t (from_right l x h ∷ above)))
          (rebalance_above false t' above)
          (grow-Balanced (1 + max (get_height l) n) t' above ctx
            (record { avl = g'.avl; same = refl; height = g'.height }))
          (λ u done. around-step (from_right l x h) t t' above u g'.same done))

-- The loop above a subtree that has lost a node.
pub shrink-Balanced :
    (n : ℕ) (t : Tree) (above : List Frame)
    → IsContext n above
    → Shrunk n (items t) t
    → Returns (Balanced (around t above)) (rebalance_above true t above)
unfolding rebalance_above
shrink-Balanced n t [] ctx s = (s.avl, sym (append-nil (items t)))
shrink-Balanced n t (from_left x h r ∷ above) (p, q, ar, ctx) s =
    Returns-bind (Shrunk (1 + max n (get_height r)) (items t ++ (x ∷ items r)))
      (Balanced (around t (from_left x h r ∷ above))) (rebalance_node true (node t x h r)) _
      (shrink_left n (1 + max n (get_height r)) x h r t (refl, p, q) ar s)
      (λ t' s'.
        Returns-imp (Balanced (around t' above)) (Balanced (around t (from_left x h r ∷ above)))
          (rebalance_above true t' above)
          (shrink-Balanced (1 + max n (get_height r)) t' above ctx
            (record { avl = s'.avl; same = refl; height = s'.height }))
          (λ u done. around-step (from_left x h r) t t' above u s'.same done))
shrink-Balanced n t (from_right l x h ∷ above) (p, q, al, ctx) s =
    Returns-bind (Shrunk (1 + max (get_height l) n) (items l ++ (x ∷ items t)))
      (Balanced (around t (from_right l x h ∷ above))) (rebalance_node true (node l x h t)) _
      (shrink_right n (1 + max (get_height l) n) l x h t (refl, p, q) al s)
      (λ t' s'.
        Returns-imp (Balanced (around t' above)) (Balanced (around t (from_right l x h ∷ above)))
          (rebalance_above true t' above)
          (shrink-Balanced (1 + max (get_height l) n) t' above ctx
            (record { avl = s'.avl; same = refl; height = s'.height }))
          (λ u done. around-step (from_right l x h) t t' above u s'.same done))
