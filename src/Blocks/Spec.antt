-- ===== src/Blocks/Spec.antt =====
-- What the block list and the size tree promise each other.
use allocator_bench.Base.{
  ℕ, ◌+◌, ◌^◌, ◌<◌, ◌≤◌, ◌≡◌, ◌≢◌, refl, Bool, true, false, List, [], ◌∷◌, arith, ◌==◌,
  if◌then◌else◌, none, some, inl, inr, Bool-cases, eq_of_==,
}
use mathlib.Core.Path.{subst}
use mathlib.Core.Option.{some-injective}
use allocator_bench.Radix.Spec.{IsValid, IsUnique, occurs}
use allocator_bench.Blocks.{Block, Pool, Cursor, rejoin, locate}

-- The blocks lie end to end from `a` to `e`, and none is empty.
abbrev pub Tiles : ℕ → ℕ → List Block → Type 0
Tiles a e [] = a ≡ e
Tiles a e (b ∷ bs) = (b.start_addr ≡ a) × (0 < b.size) × Tiles (a + b.size) e bs

-- The same of a list that is read backwards from `m` down to `a`.
abbrev pub TilesBack : ℕ → ℕ → List Block → Type 0
TilesBack a m [] = a ≡ m
TilesBack a m (b ∷ bs) = (b.start_addr + b.size ≡ m) × (0 < b.size) × TilesBack a b.start_addr bs

-- No two neighbours are both free; `free` says so of the block before the first.
abbrev pub Apart : Bool → List Block → Type 0
Apart free [] = Unit
Apart free (b ∷ bs) = ((free ≡ true) → (b.is_free ≡ true) → ⊥) × Apart b.is_free bs

abbrev pub total : (Block → ℕ) → List Block → ℕ
total f [] = 0
total f (b ∷ bs) = f b + total f bs

-- 1 for a free block of size `k` that starts at `i`.
abbrev pub free_at : (k i : ℕ) → Block → ℕ
free_at k i b =
    if b.is_free then (if b.size == k then (if b.start_addr == i then 1 else 0) else 0) else 0

-- The bytes that a block holds in use.
abbrev pub used_size : Block → ℕ
used_size b = if b.is_free then 0 else b.size

-- The invariant: the blocks tile the reservation, free blocks are merged, and the size tree holds
-- exactly the free blocks, each under its size. The end of the reservation is a user address.
pub record IsPool (base limit : ℕ) (pool : Pool) : Type 0 where
  pub tiles : Tiles base limit pool.addr_list
  pub apart : Apart false pool.addr_list
  pub valid : IsValid pool.size_tree
  pub bits : pool.size_tree.key_bits ≡ 63
  pub nodes : (k i : ℕ) → occurs k i pool.size_tree.root ≡ total (free_at k i) pool.addr_list
  pub bounded : limit < 2 ^ 63

pub Tiles-le : (a e : ℕ) (bs : List Block) → Tiles a e bs → a ≤ e
Tiles-le a e [] t = omega arith
Tiles-le a e (b ∷ bs) t = omega (arith, Tiles-le (a + b.size) e bs t.2)

-- No block starts below the first.
pub total-below :
    (k i a e : ℕ) (bs : List Block) → Tiles a e bs → i < a → total (free_at k i) bs ≡ 0
total-below k i a e [] t lt = refl
total-below k i a e (b ∷ bs) t lt = ground (arith, total-below k i (a + b.size) e bs t.2)

-- A start address names one block.
pub total_unique : (k i a e : ℕ) (bs : List Block) → Tiles a e bs → total (free_at k i) bs ≤ 1
total_unique k i a e [] t = omega arith
total_unique k i a e (b ∷ bs) t =
    ground (arith, total-below k i (a + b.size) e bs t.2, total_unique k i (a + b.size) e bs t.2)

pub total_unique_key :
    (k k' i a e : ℕ) (bs : List Block)
    → Tiles a e bs
    → k ≢ k'
    → total (free_at k i) bs + total (free_at k' i) bs ≤ 1
total_unique_key k k' i a e [] t ne = omega arith
total_unique_key k k' i a e (b ∷ bs) t ne = ground (
  arith,
  total-below k i (a + b.size) e bs t.2,
  total-below k' i (a + b.size) e bs t.2,
  total_unique_key k k' i (a + b.size) e bs t.2 ne,
)

-- Hence the size tree has each name once.
pub IsPool-IsUnique :
    {base limit : ℕ} {pool : Pool} (id : ℕ)
    → IsPool base limit pool
    → IsUnique id pool.size_tree.root
IsPool-IsUnique {base} {limit} {pool} id h = (
  λ k. omega (arith, h.nodes k id, total_unique k id base limit pool.addr_list h.tiles),
  λ k k' ne. omega (
    arith,
    h.nodes k id,
    h.nodes k' id,
    total_unique_key k k' id base limit pool.addr_list h.tiles ne,
  ),
)

-- Sums and tilings over the two sides of a cursor.
pub total-rejoin :
    (f : Block → ℕ) (before rest : List Block)
    → total f (rejoin before rest) ≡ total f before + total f rest
unfolding rejoin
total-rejoin f [] rest = omega arith
total-rejoin f (b ∷ before) rest = omega (arith, total-rejoin f before (b ∷ rest))

pub Tiles-rejoin :
    (a m e : ℕ) (before rest : List Block)
    → TilesBack a m before
    → Tiles m e rest
    → Tiles a e (rejoin before rest)
unfolding rejoin
Tiles-rejoin a m e [] rest back t = rw back t
Tiles-rejoin a m e (b ∷ before) rest back t =
    Tiles-rejoin a b.start_addr e before (b ∷ rest) back.2 (refl, back.1, rw back.0 t)

pub Apart-rejoin :
    (before : List Block) (c : Block) (after : List Block)
    → Apart c.is_free before
    → Apart c.is_free after
    → Apart false (rejoin before (c ∷ after))
unfolding rejoin
Apart-rejoin [] c after back ahead = (λ e. cc, ahead)
Apart-rejoin (b ∷ before) c after back ahead =
    Apart-rejoin before b (c ∷ after) back.1 (λ x y. back.0 y x, ahead)

-- What is known of a cursor into a tiled list.
pub record IsCursor (base limit addr : ℕ) (bs : List Block) (c : Cursor) : Type 0 where
  pub whole : rejoin c.before (c.here ∷ c.after) ≡ bs
  pub at_addr : c.here.start_addr ≡ addr
  pub pos : 0 < c.here.size
  pub back : TilesBack base addr c.before
  pub ahead : Tiles (addr + c.here.size) limit c.after
  pub apart_back : Apart c.here.is_free c.before
  pub apart_ahead : Apart c.here.is_free c.after

abbrev head_free : List Block → Bool
head_free [] = false
head_free (b ∷ bs) = b.is_free

pub Apart-weaken : (f : Bool) (bs : List Block) → Apart f bs → Apart false bs
Apart-weaken f [] h = tt
Apart-weaken f (b ∷ bs) h = (λ e. cc, h.1)

Apart-head : (f : Bool) (bs : List Block) → Apart f bs → head_free bs ≡ true → f ≡ true → ⊥
Apart-head f [] h = λ e. cc
Apart-head f (b ∷ bs) h = λ e e'. h.0 e' e

locate-IsCursor_from :
    (base m limit addr : ℕ) (before bs : List Block) (c : Cursor)
    → TilesBack base m before
    → Tiles m limit bs
    → Apart (head_free bs) before
    → Apart (head_free before) bs
    → locate addr before bs ≡ some c
    → IsCursor base limit addr (rejoin before bs) c
unfolding locate rejoin
locate-IsCursor_from base m limit addr before [] c back t ab at found = cc
locate-IsCursor_from base m limit addr before (b ∷ bs) c back t ab at found =
    elim (Bool-cases (b.start_addr == addr)) [
      | inl hit ↦ here (eq_of_== b.start_addr addr hit) (rw hit at found)
      | inr miss ↦
          locate-IsCursor_from base (m + b.size) limit addr (b ∷ before) bs c
            (omega arith, t.1, rw t.0 back) t.2 (Apart-head b.is_free bs at.1, ab) at.1
            (rw miss at found)
    ]
  where
    here :
        b.start_addr ≡ addr
        → some (record { before = before; here = b; after = bs }) ≡ some c
        → IsCursor base limit addr (rejoin before (b ∷ bs)) c
    here e f =
        subst (IsCursor base limit addr (rejoin before (b ∷ bs))) (some-injective _ _ f) (record {
          whole = refl;
          at_addr = e;
          pos = t.1;
          back = rw (← e, t.0) back;
          ahead = rw (← e, t.0) t.2;
          apart_back = ab;
          apart_ahead = at.1;
        })

pub locate-IsCursor :
    (base limit addr : ℕ) (bs : List Block) (c : Cursor)
    → Tiles base limit bs
    → Apart false bs
    → locate addr [] bs ≡ some c
    → IsCursor base limit addr bs c
unfolding rejoin
locate-IsCursor base limit addr bs c t apart found =
    locate-IsCursor_from base base limit addr [] bs c refl t tt apart found

-- A block that a sum counts is found.
pub locate-ne-none :
    (k i : ℕ) (before bs : List Block) → 0 < total (free_at k i) bs → locate i before bs ≢ none
unfolding locate
locate-ne-none k i before [] pos = absurd (omega arith)
locate-ne-none k i before (b ∷ bs) pos = elim (Bool-cases (b.start_addr == i)) [
  | inl hit ↦ rw hit (λ e. cc)
  | inr miss ↦ rw miss (locate-ne-none k i (b ∷ before) bs (ground arith))
]
