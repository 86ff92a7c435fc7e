-- ===== src/Blocks/Walk.antt =====
-- Walks along the block list, and the sizes of free blocks as the size tree sees them.
use allocator_bench.Base.{
  ℕ, ◌+◌, ◌<◌, ◌≤◌, ◌≡◌, refl, ◌∙◌, true, false, List, [], ◌∷◌, ◌⊎◌, inl, inr, arith, ltb, ◌==◌,
  ==-ne, ==-eq, ltb-lt, ltb-le, eq_of_==, Bool-cases,
}
use allocator_bench.Radix.{Ring, Tree, leaf, node}
use allocator_bench.Radix.Spec.{All, occurs}
use allocator_bench.Radix.Candidates.{Holds}
use allocator_bench.Blocks.{Block, rejoin, update, insert_addr_list}
use allocator_bench.Blocks.Spec.{Tiles, TilesBack, total, free_at}

-- `P` holds of the size of every free block.
abbrev pub FreeSizes : (ℕ → Type 0) → List Block → Type 0
FreeSizes P [] = Unit
FreeSizes P (b ∷ bs) = (b.is_free ≡ true → P b.size) × FreeSizes P bs

pub FreeSizes-total :
    (P : ℕ → Type 0) (bs : List Block)
    → ((k i : ℕ) → 0 < total (free_at k i) bs → P k)
    → FreeSizes P bs
FreeSizes-total P [] h = tt
FreeSizes-total P (b ∷ bs) h = (
  λ free. h b.size b.start_addr (ground arith),
  FreeSizes-total P bs (λ k i pos. h k i (omega arith)),
)

-- The keys of a size tree, as the occurrences in it see them.
pub All-occurs : (P : ℕ → Type 0) (k i : ℕ) (t : Tree) → All P t → 0 < occurs k i t → P k
unfolding occurs
All-occurs P k i leaf a pos = absurd (omega arith)
All-occurs P k i (node c l r) a pos = elim (Bool-cases (c.key == k)) [
  | inl same ↦ rw (eq_of_== c.key k same) at a.0
  | inr other ↦ elim (pos_sum (rw other at pos)) [
    | inl left ↦ All-occurs P k i l a.1 left
    | inr right ↦ All-occurs P k i r a.2 right
  ]
]
  where
    pos_sum : 0 < 0 + occurs k i l + occurs k i r → (0 < occurs k i l) ⊎ (0 < occurs k i r)
    pos_sum h = omega arith

pub Holds-occurs : (c : Ring) (t : Tree) → Holds c t → 0 < occurs c.key c.first t
unfolding occurs
Holds-occurs c leaf h = absurd h
Holds-occurs c (node d l r) (inl e) = rw e (ground arith)
Holds-occurs c (node d l r) (inr (inl h)) = omega (arith, Holds-occurs c l h)
Holds-occurs c (node d l r) (inr (inr h)) = omega (arith, Holds-occurs c r h)

-- A write or an insertion at an address walks past the blocks below it.
pub update-rejoin :
    (a m addr : ℕ) (write : Block → Block) (before rest : List Block)
    → TilesBack a m before
    → m ≤ addr
    → update addr write (rejoin before rest) ≡ rejoin before (update addr write rest)
unfolding rejoin update
update-rejoin a m addr write [] rest back le = refl
update-rejoin a m addr write (b ∷ before) rest back le =
    let miss : (b.start_addr == addr) ≡ false = ==-ne b.start_addr addr (omega arith) in
    update-rejoin a b.start_addr addr write before (b ∷ rest) back.2 (omega arith) ∙ rw miss refl

pub update_here :
    (addr : ℕ) (write : Block → Block) (b : Block) (bs : List Block)
    → b.start_addr ≡ addr
    → update addr write (b ∷ bs) ≡ write b ∷ bs
unfolding update
update_here addr write b bs e = rw (==-eq b.start_addr addr e)

pub insert-rejoin :
    (a m : ℕ) (new : Block) (before rest : List Block)
    → TilesBack a m before
    → m ≤ new.start_addr
    → insert_addr_list new (rejoin before rest) ≡ rejoin before (insert_addr_list new rest)
unfolding rejoin insert_addr_list
insert-rejoin a m new [] rest back le = refl
insert-rejoin a m new (b ∷ before) rest back le =
    let low : ltb b.start_addr new.start_addr ≡ true =
      ltb-lt b.start_addr new.start_addr (omega arith) in
    insert-rejoin a b.start_addr new before (b ∷ rest) back.2 (omega arith) ∙ rw low refl

pub insert_behind :
    (m e : ℕ) (new b : Block) (after : List Block)
    → b.start_addr < new.start_addr
    → new.start_addr ≤ m
    → Tiles m e after
    → insert_addr_list new (b ∷ after) ≡ b ∷ new ∷ after
unfolding insert_addr_list
insert_behind m e new b [] lt le t = rw (ltb-lt b.start_addr new.start_addr lt)
insert_behind m e new b (x ∷ after) lt le t =
    rw (ltb-lt b.start_addr new.start_addr lt, ltb-le x.start_addr new.start_addr (omega arith))

pub total-back :
    (k i a m : ℕ) (bs : List Block) → TilesBack a m bs → m ≤ i → total (free_at k i) bs ≡ 0
total-back k i a m [] t le = refl
total-back k i a m (b ∷ bs) t le = ground (arith, total-back k i a b.start_addr bs t.2)
