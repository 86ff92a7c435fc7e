-- ===== src/Radix/Examples.antt =====
-- The radix tree on concrete keys, and its theorems at them.
use allocator_bench.Base.{
  ℕ, ◌≡◌, refl, ◌+◌, ◌<◌, false, none, some, [], ◌∷◌, arith, ok, stop, Returns,
}
use allocator_bench.Radix.{
  RadixTree, leaf, node, list_init, init, empty, insert, insert_loop, is_bit_set, find_geq,
  find_loop, get_smaller_node, remove, is_linked, remove_node, remove_primary, list_remove, cut,
}
use allocator_bench.Radix.Spec.{IsValid, IsUnique, occurs, in_ring}
use allocator_bench.Radix.Insert.{insert_lem}
use allocator_bench.Radix.Find.{BestFit, find_geq-BestFit}
use allocator_bench.Radix.Remove.{IsRemoved, remove_lem}

-- Four bits; the keys 2, 5, 12 and 5 again, of the nodes 1 to 4.
abbrev sample : RadixTree
sample = record {
  root =
      node (list_init 2 1) (node (record { key = 5; first = 2; rest = 4 ∷ [] }) leaf leaf)
        (node (list_init 12 3) leaf leaf);
  key_bits = 4;
}

-- It is what the insertions build, in an order that makes nodes move down.
sample_built :
    insert
      (record { root = node (list_init 5 2) leaf (node (list_init 12 3) leaf leaf); key_bits = 4 })
      1
      2
    ≡ ok (record {
      root =
          node (list_init 2 1) (node (list_init 5 2) leaf leaf) (node (list_init 12 3) leaf leaf);
      key_bits = 4;
    })
unfolding insert is_linked insert_loop is_bit_set
sample_built = refl

sample_searches : (find_geq sample 6 ≡ ok (some (list_init 12 3))) × (find_geq sample 13 ≡ ok none)
unfolding find_geq find_loop is_bit_set get_smaller_node
sample_searches = (refl, refl)

removals :
    (remove sample 1
      ≡ ok (record sample {
        root =
            node
              (record { key = 5; first = 2; rest = 4 ∷ [] })
              leaf
              (node (list_init 12 3) leaf leaf);
      }))
    × (remove sample 2
        ≡ ok (record sample {
          root =
              node
                (list_init 2 1)
                (node (list_init 5 4) leaf leaf)
                (node (list_init 12 3) leaf leaf);
        }))
    × (remove sample 9 ≡ stop)
    × (insert sample 4 7 ≡ stop)
unfolding remove insert is_linked remove_node remove_primary list_remove cut
removals = (refl, refl, refl, refl)

init_refuses : init 0 ≡ stop
unfolding init
init_refuses = refl

not_empty : empty sample ≡ false
unfolding empty
not_empty = refl

sample-IsValid : IsValid sample
sample-IsValid = omega arith

sample-IsUnique : (id : ℕ) → IsUnique id sample.root
unfolding occurs
sample-IsUnique id = (λ k. ground arith, λ k k' ne. ground arith)

nine_absent : (k : ℕ) → occurs k 9 sample.root ≡ 0
unfolding occurs
nine_absent k = ground arith

two_held : 0 < occurs 5 2 sample.root
unfolding occurs
two_held = omega arith

insert_lem_example :
    Returns
      (λ tree.
        IsValid tree
        × (tree.key_bits ≡ 4)
        × ((k i : ℕ) → occurs k i tree.root ≡ occurs k i sample.root + in_ring k i (list_init 3 9)))
      (insert sample 9 3)
insert_lem_example = insert_lem sample 9 3 sample-IsValid (omega arith) nine_absent

find_geq-BestFit_example : Returns (BestFit 6 sample.root) (find_geq sample 6)
find_geq-BestFit_example = find_geq-BestFit sample 6 sample-IsValid (omega arith)

remove_lem_example : Returns (IsRemoved sample 2) (remove sample 2)
remove_lem_example = remove_lem sample 5 2 sample-IsValid (sample-IsUnique 2) two_held
