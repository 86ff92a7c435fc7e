-- ===== src/Avl/Remove.antt =====
-- Removal from a tree of utils/avl.c is removal from its sorted list.
use mathlib.Core.List.{append_assoc, append-nil}
use mathlib.Core.Path.{subst}
use allocator_bench.Base.{
  ℕ, suc, ◌+◌, ◌<◌, ◌≤◌, ◌≡◌, inr, refl, sym, ap, ◌∙◌, max, true, false, Option, none, some, List,
  [], ◌∷◌, ◌++◌, arith, ◌==◌, Returns, Returns-bind, eq_of_==, ==-eq, ==-ne, if_cases,
  if◌then◌else◌,
}
use allocator_bench.Avl.{
  Node, Tree, leaf, node, Frame, from_left, from_right, plug, AvlTree, get_height, recalculated,
  first_some, leftmost, locate, remove_at, remove_located, remove, rebalance, rebalance_above,
}
use allocator_bench.Avl.Spec.{items, before, after, IsAvl, IsContext, items-plug}
use allocator_bench.Avl.Balance.{rebalance_node-level}
use allocator_bench.Avl.Climb.{Balanced, around, shrink-Balanced}
use allocator_bench.Avl.Sorted.{
  drop_id, count_id, Below, IsSorted, IsValid, drop_id-append, drop_id-absent, count_id-append,
  AllNodes-drop_id, drop_id-IsSorted,
}

-- What the way down to the leftmost node finds, whatever stands above: the node is the first of the
-- subtree, and the frames put its right subtree in place of it.
record Leftmost (t : Tree) (down base : List Frame) (found : Node × ℕ × Tree × List Frame)
    : Type 0 where
  rest_avl : IsAvl found.2
  same_before : before (found.3 ++ base) ≡ before (down ++ base)
  same_after :
      found.0 ∷ (items found.2 ++ after (found.3 ++ base)) ≡ items t ++ after (down ++ base)
  context :
      IsContext (get_height t) (down ++ base)
      → IsContext (suc (get_height found.2)) (found.3 ++ base)

leftmost-Leftmost :
    (l : Tree) (x : Node) (h : ℕ) (r : Tree) (down base : List Frame)
    → IsAvl (node l x h r)
    → Leftmost (node l x h r) down base (leftmost l x h r down)
unfolding leftmost
leftmost-Leftmost leaf x h r down base (e, p, q, al, ar) = record {
  rest_avl = ar;
  same_before = refl;
  same_after = refl;
  context = λ ctx. let height : h ≡ suc (get_height r) = omega arith in rw height at ctx;
}
leftmost-Leftmost (node a y hy b) x h r down base (e, p, q, al, ar) =
    let ih = leftmost-Leftmost a y hy b (from_left x h r ∷ down) base al in
    record {
      rest_avl = ih.rest_avl;
      same_before = ih.same_before;
      same_after =
          ih.same_after
          ∙ sym (append_assoc (items (node a y hy b)) (x ∷ items r) (after (down ++ base)));
      context = λ ctx. ih.context (p, q, ar, rw e at ctx);
    }

-- The list round a place without the node that stands there.
abbrev without : Tree → Tree → List Frame → List Node
without l r above = before above ++ ((items l ++ items r) ++ after above)

-- The list in which the successor has gone over to the place of the node removed.
gone_over :
    (bs ls zs rs ns cs : List Node) (s : Node)
    → cs ≡ bs ++ (ls ++ (s ∷ []))
    → s ∷ zs ≡ rs ++ ns
    → cs ++ zs ≡ bs ++ ((ls ++ rs) ++ ns)
gone_over bs ls zs rs ns cs s p q =
    ap (λ x. x ++ zs) p
    ∙ append_assoc bs (ls ++ (s ∷ [])) zs
    ∙ ap (λ x. bs ++ x)
        (append_assoc ls (s ∷ []) zs ∙ ap (λ x. ls ++ x) q ∙ sym (append_assoc ls rs ns))

module _ (x : Node) (h : ℕ) (above : List Frame) where
  -- The loop from the only child on.
  only_child :
      (l r : Tree) (a : Tree) (y : Node) (hy : ℕ) (b : Tree)
      → IsAvl (node a y hy b)
      → h ≡ suc hy
      → IsContext h above
      → items l ++ items r ≡ items (node a y hy b)
      → Returns (Balanced (without l r above)) (rebalance true (node a y hy b) above)
  unfolding rebalance
  only_child l r a y hy b (e, p, q, aa, ab) higher ctx same =
      rw (rebalance_node-level true a y hy b p q) (
        subst
          (λ ns.
            Returns (Balanced (before above ++ (ns ++ after above)))
              (rebalance_above true (recalculated a y b) above))
          (sym same)
          (shrink-Balanced h (recalculated a y b) above ctx
            (record { avl = (refl, p, q, aa, ab); same = refl; height = inr (omega arith) })))

  -- Removal at a place of a balanced tree.
  remove_at-Balanced :
      (l r : Tree)
      → IsAvl (node l x h r)
      → IsContext h above
      → Returns (Balanced (without l r above)) (remove_at (node l x h r) above)
  unfolding remove_at
  remove_at-Balanced leaf leaf (e, p, q, al, ar) ctx =
      shrink-Balanced h leaf above ctx
        (record { avl = tt; same = refl; height = inr (omega arith) })
  remove_at-Balanced (node a y hy b) leaf (e, p, q, al, ar) ctx =
      only_child (node a y hy b) leaf a y hy b al (omega arith) ctx (append-nil _)
  remove_at-Balanced leaf (node a y hy b) (e, p, q, al, ar) ctx =
      only_child leaf (node a y hy b) a y hy b ar (omega arith) ctx refl
  remove_at-Balanced (node a y hy b) (node c z hz d) (e, p, q, al, ar) ctx =
      let found = leftmost c z hz d [] in
      let base : List Frame = from_right (node a y hy b) found.0 found.1 ∷ above in
      let least = leftmost-Leftmost c z hz d [] base ar in
      let above_base : IsContext hz base = (p, q, al, rw e at ctx) in
      subst (λ ns. Returns (Balanced ns) (rebalance_above true found.2 (found.3 ++ base)))
        (gone_over (before above) (items (node a y hy b)) (items found.2 ++ after (found.3 ++ base))
          (items (node c z hz d)) (after above) (before (found.3 ++ base)) found.0 least.same_before
          least.same_after)
        (shrink-Balanced (suc (get_height found.2)) found.2 (found.3 ++ base)
          (least.context above_base)
          (record { avl = least.rest_avl; same = refl; height = inr refl }))

-- The place that the search for a node's address ends at.
abbrev pub Located : ℕ → Tree → List Frame → Option (Tree × List Frame) → Type 0
Located id t above none = count_id id (items t) ≡ 0
Located id t above (some (leaf, above')) = ⊥
Located id t above (some (node l x h r, above')) =
    (x.id ≡ id)
    × IsAvl (node l x h r)
    × IsContext h above'
    × (around (node l x h r) above' ≡ around t above)

Located-up :
    (id : ℕ) (f : Frame) (t : Tree) (above : List Frame) (place : Tree × List Frame)
    → Located id t (f ∷ above) (some place)
    → Located id (plug f t) above (some place)
Located-up id f t above (leaf, above') h = h
Located-up id f t above (node l x k r, above') (same_id, avl, ctx, whole) =
    (same_id, avl, ctx, whole ∙ sym (items-plug f t above))

Located-first :
    (id : ℕ) (l : Tree) (x : Node) (h : ℕ) (r : Tree) (above : List Frame)
    (a b : Option (Tree × List Frame))
    → (x.id == id) ≡ false
    → Located id l (from_left x h r ∷ above) a
    → Located id r (from_right l x h ∷ above) b
    → Located id (node l x h r) above (first_some a b)
Located-first id l x h r above none none miss p q =
    ground (arith, count_id-append id (items l) (x ∷ items r))
Located-first id l x h r above none (some place) miss p q =
    Located-up id (from_right l x h) r above place q
Located-first id l x h r above (some place) b miss p q =
    Located-up id (from_left x h r) l above place p

pub locate-Located :
    (id : ℕ) (t : Tree) (above : List Frame)
    → IsAvl t
    → IsContext (get_height t) above
    → Located id t above (locate id t above)
unfolding locate
locate-Located id leaf above avl ctx = refl
locate-Located id (node l x h r) above (e, p, q, al, ar) ctx =
    let ctx' : IsContext (1 + max (get_height l) (get_height r)) above = rw e at ctx in
    let left = locate-Located id l (from_left x h r ∷ above) al (p, q, ar, ctx') in
    let right = locate-Located id r (from_right l x h ∷ above) ar (p, q, al, ctx') in
    if_cases (Located id (node l x h r) above) (x.id == id) (some (node l x h r, above))
      (first_some (locate id l (from_left x h r ∷ above)) (locate id r (from_right l x h ∷ above)))
      (λ hit. (eq_of_== x.id id hit, (e, p, q, al, ar), ctx, refl))
      (λ miss.
        Located-first id l x h r above (locate id l (from_left x h r ∷ above))
          (locate id r (from_right l x h ∷ above)) miss left right)

-- The nodes after the removal of the node with this address: those of before without it, and none at
-- all where the list does not have it.
abbrev pub left_after : ℕ → List Node → List Node
left_after id nodes = if count_id id nodes == 0 then [] else drop_id id nodes

-- The nodes are those that `left_after` says, and the tree is valid.
pub record Removed (bound id : ℕ) (tree tree' : AvlTree) : Type 0 where
  pub valid : IsValid bound tree'
  pub nodes : items tree'.root ≡ left_after id (items tree.root)
  pub same_compare : tree'.compare ≡ tree.compare

pub left_after-there :
    (id : ℕ) (xs : List Node) → 0 < count_id id xs → left_after id xs ≡ drop_id id xs
left_after-there id xs there = rw (==-ne (count_id id xs) 0 (omega arith)) refl

left_after-all {ℓ} :
    (P : List Node → Type ℓ) (id : ℕ) (xs : List Node)
    → P []
    → P (drop_id id xs)
    → P (left_after id xs)
left_after-all P id xs p q = if_cases P (count_id id xs == 0) [] (drop_id id xs) (λ _. p) (λ _. q)

-- A list in which one node of at most one has the address, without that node.
left_one :
    (id : ℕ) (bs ls : List Node) (x : Node) (rs ns : List Node)
    → x.id ≡ id
    → count_id id (bs ++ ((ls ++ (x ∷ rs)) ++ ns)) ≤ 1
    → left_after id (bs ++ ((ls ++ (x ∷ rs)) ++ ns)) ≡ bs ++ ((ls ++ rs) ++ ns)
left_one id bs ls x rs ns hit once =
    let counts : count_id id (bs ++ ((ls ++ (x ∷ rs)) ++ ns))
        ≡ count_id id bs + (count_id id ls + (1 + count_id id rs) + count_id id ns) =
      ground (
        arith,
        hit,
        count_id-append id bs ((ls ++ (x ∷ rs)) ++ ns),
        count_id-append id (ls ++ (x ∷ rs)) ns,
        count_id-append id ls (x ∷ rs),
      ) in
    rw
      (
        ==-ne (count_id id (bs ++ ((ls ++ (x ∷ rs)) ++ ns))) 0 (omega arith),
        drop_id-append id bs ((ls ++ (x ∷ rs)) ++ ns),
        drop_id-append id (ls ++ (x ∷ rs)) ns,
        drop_id-append id ls (x ∷ rs),
        ==-eq x.id id hit,
        drop_id-absent id bs (omega arith),
        drop_id-absent id ls (omega arith),
        drop_id-absent id rs (omega arith),
        drop_id-absent id ns (omega arith),
      )
      refl

-- Removal of a node from a valid tree, given its address, which no other node of the tree has, fails
-- no assertion and reads no null pointer. The tree is valid again, balanced included, and its nodes
-- are those of before without that one. The removal of a node that is not in the tree, with its links
-- null, leaves the tree empty.
pub remove-Removed :
    (bound id : ℕ) (tree : AvlTree)
    → IsValid bound tree
    → count_id id (items tree.root) ≤ 1
    → Returns (Removed bound id tree) (remove tree id)
unfolding remove remove_located
remove-Removed bound id tree v once =
    at_place (locate id tree.root []) (locate-Located id tree.root [] v.avl tt)
  where
    nodes_left :
        (t : Tree)
        → IsAvl t
        → items t ≡ left_after id (items tree.root)
        → Removed bound id tree (record tree { root = t })
    nodes_left t avl nodes = record {
      valid = record {
        avl = avl;
        sorted = rw nodes (
            left_after-all IsSorted id (items tree.root) tt
              (drop_id-IsSorted id (items tree.root) v.sorted));
        bounded = rw nodes (
            left_after-all (Below bound) id (items tree.root) tt
              (AllNodes-drop_id (λ z. z.key < bound) id (items tree.root) v.bounded));
        compares = v.compares;
      };
      nodes = nodes;
      same_compare = refl;
    }

    at_place :
        (place : Option (Tree × List Frame))
        → Located id tree.root [] place
        → Returns (Removed bound id tree) (remove_located tree place)
    at_place none absent =
        nodes_left leaf tt (rw (==-eq (count_id id (items tree.root)) 0 absent) refl)
    at_place (some (leaf, above)) h = absurd h
    at_place (some (node l x h r, above)) (hit, avl, ctx, whole) =
        let list : around (node l x h r) above ≡ items tree.root =
          whole ∙ append-nil (items tree.root) in
        Returns-bind (Balanced (without l r above)) (Removed bound id tree)
          (remove_at (node l x h r) above) _ (remove_at-Balanced x h above l r avl ctx)
          (λ t (avl', nodes). nodes_left t avl' (
            nodes
            ∙ sym
                (left_one id (before above) (items l) x (items r) (after above) hit (rw list once))
            ∙ ap (left_after id) list))
