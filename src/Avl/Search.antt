-- ===== src/Avl/Search.antt =====
-- The searches of utils/avl.c are searches through the sorted list.
use Prim.Native.Nat.{Ordering, compare}
use allocator_bench.Base.{ℕ, ◌<◌, ◌≡◌, inl, inr, refl, sym, ap, ◌∙◌, Option, none, some, ◌∷◌, arith}
use allocator_bench.Avl.{
  Node, Tree, leaf, node, AvlTree, first_some, find_node, find, find_geq_loop, find_geq,
  find_leq_loop, find_leq,
}
use allocator_bench.Avl.Spec.{items}
use allocator_bench.Avl.Sorted.{
  Below, IsSorted, IsValid, find_key, first_geq, last_leq, AllNodes-imp, AllNodes-parts,
  IsSorted-parts, find_key-Below, find_key-left, first_geq-append, first_geq-Below, last_leq-append,
  last_leq-Above, first_some-none, first_some_assoc,
}
use allocator_bench.Avl.Insert.{compare_cases}

module _ (key bound : ℕ) (cmp : ℕ → Ordering)
    (agree : (k : ℕ) → k < bound → cmp k ≡ compare key k) where
  find_node_lem :
      (t : Tree)
      → IsSorted (items t)
      → Below bound (items t)
      → find_node cmp t ≡ find_key key (items t)
  unfolding find_node
  find_node_lem leaf s small = refl
  find_node_lem (node l x h r) s small =
      let parts = IsSorted-parts (items l) x (items r) s in
      let small_parts = AllNodes-parts (λ z. z.key < bound) (items l) (x ∷ items r) small in
      let here : cmp x.key ≡ compare key x.key = agree x.key small_parts.1.0 in
      elim (compare_cases key x.key) [
        | inl (c, lt) ↦
            rw (here ∙ c, find_node)
              (find_node_lem l parts.2 small_parts.0
                ∙ sym (
                    find_key-left key (items l) (x ∷ items r) (
                      lt,
                      AllNodes-imp (λ z. x.key < z.key) (λ z. key < z.key) (items r)
                          (λ z k. omega arith) parts.1,
                    )))
        | inr (inl (c, same)) ↦
            rw (here ∙ c, find_node)
              (sym (find_key-Below key (items l) (x ∷ items r) (rw same parts.0) ∙ ground arith))
        | inr (inr (c, gt)) ↦
            rw (here ∙ c, find_node)
              (find_node_lem r parts.3 small_parts.1.1
                ∙ sym (
                    find_key-Below key (items l) (x ∷ items r) (
                      AllNodes-imp (λ z. z.key < x.key) (λ z. z.key < key) (items l)
                        (λ z k. omega arith) parts.0)
                    ∙ ground arith))
      ]

  find_geq_loop_lem :
      (best : Option Node) (t : Tree)
      → IsSorted (items t)
      → Below bound (items t)
      → find_geq_loop cmp best t ≡ first_some (first_geq key (items t)) best
  unfolding find_geq_loop
  find_geq_loop_lem best leaf s small = refl
  find_geq_loop_lem best (node l x h r) s small =
      let parts = IsSorted-parts (items l) x (items r) s in
      let small_parts = AllNodes-parts (λ z. z.key < bound) (items l) (x ∷ items r) small in
      let here : cmp x.key ≡ compare key x.key = agree x.key small_parts.1.0 in
      let split = first_geq-append key (items l) (x ∷ items r) in
      elim (compare_cases key x.key) [
        | inl (c, lt) ↦
            let stands : first_geq key (x ∷ items r) ≡ some x = ground arith in
            rw (here ∙ c, find_geq_loop)
              (find_geq_loop_lem (some x) l parts.2 small_parts.0
                ∙ sym (
                    ap (λ a. first_some a best)
                      (split ∙ ap (first_some (first_geq key (items l))) stands)
                    ∙ first_some_assoc (first_geq key (items l)) (some x) best))
        | inr (inl (c, same)) ↦
            let stands : first_geq key (x ∷ items r) ≡ some x = ground arith in
            rw (here ∙ c, find_geq_loop)
              (sym (
                ap (λ a. first_some a best)
                  (split
                    ∙ ap (λ a. first_some a (first_geq key (x ∷ items r)))
                        (first_geq-Below key (items l) (rw same parts.0))
                    ∙ stands)))
        | inr (inr (c, gt)) ↦
            let passed : first_geq key (x ∷ items r) ≡ first_geq key (items r) = ground arith in
            rw (here ∙ c, find_geq_loop)
              (find_geq_loop_lem best r parts.3 small_parts.1.1
                ∙ sym (
                    ap (λ a. first_some a best)
                      (split
                        ∙ ap (λ a. first_some a (first_geq key (x ∷ items r)))
                            (first_geq-Below key (items l) (
                              AllNodes-imp (λ z. z.key < x.key) (λ z. z.key < key) (items l)
                                (λ z k. omega arith) parts.0))
                        ∙ passed)))
      ]

  find_leq_loop_lem :
      (best : Option Node) (t : Tree)
      → IsSorted (items t)
      → Below bound (items t)
      → find_leq_loop cmp best t ≡ first_some (last_leq key (items t)) best
  unfolding find_leq_loop
  find_leq_loop_lem best leaf s small = refl
  find_leq_loop_lem best (node l x h r) s small =
      let parts = IsSorted-parts (items l) x (items r) s in
      let small_parts = AllNodes-parts (λ z. z.key < bound) (items l) (x ∷ items r) small in
      let here : cmp x.key ≡ compare key x.key = agree x.key small_parts.1.0 in
      let split = last_leq-append key (items l) (x ∷ items r) in
      elim (compare_cases key x.key) [
        | inl (c, lt) ↦
            let passed : last_leq key (x ∷ items r) ≡ none = last_leq-Above key (x ∷ items r) (
              lt,
              AllNodes-imp (λ z. x.key < z.key) (λ z. key < z.key) (items r) (λ z k. omega arith)
                  parts.1,
            ) in
            rw (here ∙ c, find_leq_loop)
              (find_leq_loop_lem best l parts.2 small_parts.0
                ∙ sym (
                    ap (λ a. first_some a best)
                      (split ∙ ap (λ a. first_some a (last_leq key (items l))) passed)))
        | inr (inl (c, same)) ↦
            let none_after : last_leq key (items r) ≡ none =
              last_leq-Above key (items r) (rw same parts.1) in
            let stands : last_leq key (x ∷ items r) ≡ some x = ground (arith, none_after) in
            rw (here ∙ c, find_leq_loop)
              (sym (
                ap (λ a. first_some a best)
                  (split ∙ ap (λ a. first_some a (last_leq key (items l))) stands)))
        | inr (inr (c, gt)) ↦
            let stands : last_leq key (x ∷ items r) ≡ first_some (last_leq key (items r)) (some x) =
              ground arith in
            rw (here ∙ c, find_leq_loop)
              (find_leq_loop_lem (some x) r parts.3 small_parts.1.1
                ∙ sym (
                    ap (λ a. first_some a best)
                      (split
                        ∙ ap (λ a. first_some a (last_leq key (items l))) stands
                        ∙ first_some_assoc (last_leq key (items r)) (some x)
                            (last_leq key (items l)))
                    ∙ first_some_assoc (last_leq key (items r)) (some x) best))
      ]

-- In a valid tree and for a key below the bound, the three searches return what a search through the
-- list of the nodes in order returns: the node with the key, the first node whose key is not below
-- the key, and the last whose key is not above it, or nothing.
pub searches :
    (bound key : ℕ) (tree : AvlTree)
    → IsValid bound tree
    → key < bound
    → (find tree key ≡ find_key key (items tree.root))
      × (find_geq tree key ≡ first_geq key (items tree.root))
      × (find_leq tree key ≡ last_leq key (items tree.root))
unfolding find find_geq find_leq
searches bound key tree v small =
    let agree : (k : ℕ) → k < bound → tree.compare key k ≡ compare key k =
      λ k lt. v.compares key k small lt in
    (
      find_node_lem key bound (tree.compare key) agree tree.root v.sorted v.bounded,
      find_geq_loop_lem key bound (tree.compare key) agree none tree.root v.sorted v.bounded
          ∙ first_some-none (first_geq key (items tree.root)),
      find_leq_loop_lem key bound (tree.compare key) agree none tree.root v.sorted v.bounded
          ∙ first_some-none (last_leq key (items tree.root)),
    )
