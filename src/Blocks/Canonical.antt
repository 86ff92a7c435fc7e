-- ===== src/Blocks/Canonical.antt =====
-- The block list is determined by the used blocks: merging leaves one list for each set of them.
use allocator_bench.Base.{
  ℕ, ◌+◌, ◌<◌, ◌≤◌, ◌≡◌, refl, sym, ap, ◌∙◌, true, false, List, [], ◌∷◌, inl, inr, arith, ◌==◌,
  if◌then◌else◌, Bool-cases, none,
}
use mathlib.Core.Path.{ap₂}
use mathlib.Core.Option.{some-ne-none}
use allocator_bench.Blocks.{Block, Cursor, locate}
use allocator_bench.Blocks.Spec.{
  Tiles, TilesBack, IsCursor, total-rejoin, Apart, total, Tiles-le, Apart-weaken,
}
use allocator_bench.Blocks.Free.{OfUsed}

-- 1 for a used block of size `k` that starts at `i`.
abbrev pub used_at : (k i : ℕ) → Block → ℕ
used_at k i b =
    if b.is_free then 0 else (if b.size == k then (if b.start_addr == i then 1 else 0) else 0)

pub used_at-OfUsed : (k i : ℕ) → OfUsed (used_at k i)
used_at-OfUsed k i b free = rw free refl

pub used-below : (k i a e : ℕ) (bs : List Block) → Tiles a e bs → i < a → total (used_at k i) bs ≡ 0
used-below k i a e [] t lt = refl
used-below k i a e (b ∷ bs) t lt = ground (arith, used-below k i (a + b.size) e bs t.2)

-- The same used blocks.
abbrev pub SameUsed : List Block → List Block → Type 0
SameUsed bs cs = (f : Block → ℕ) → OfUsed f → total f bs ≡ total f cs

SameUsed-count :
    (k i : ℕ) (bs cs : List Block)
    → SameUsed bs cs
    → total (used_at k i) bs ≡ total (used_at k i) cs
SameUsed-count k i bs cs same = same (used_at k i) (used_at-OfUsed k i)

-- A free block is not longer than the free block at the same place in the other list.
not_shorter :
    (a e : ℕ) (b c : Block) (bs cs : List Block)
    → Tiles a e (b ∷ bs)
    → Tiles a e (c ∷ cs)
    → Apart true bs
    → c.is_free ≡ true
    → b.is_free ≡ true
    → SameUsed (b ∷ bs) (c ∷ cs)
    → c.size ≤ b.size
not_shorter a e b c [] cs t u apart free free' same = omega (arith, Tiles-le (a + c.size) e cs u.2)
not_shorter a e b c (x ∷ bs) cs t u apart free free' same =
    let count = SameUsed-count x.size x.start_addr (b ∷ x ∷ bs) (c ∷ cs) same in
    let below = used-below x.size x.start_addr (a + c.size) e cs u.2 in
    elim (Bool-cases x.is_free) [
      | inl free'' ↦ absurd (apart.0 refl free'')
      | inr used ↦ ground arith
    ]

-- A used block at the head is the head of the other list too.
used_head :
    (a e : ℕ) (b c : Block) (bs cs : List Block)
    → Tiles a e (b ∷ bs)
    → Tiles a e (c ∷ cs)
    → SameUsed (b ∷ bs) (c ∷ cs)
    → c.is_free ≡ false
    → (b.size ≡ c.size) × (b.is_free ≡ false)
used_head a e b c bs cs t u same used =
    let count = SameUsed-count c.size c.start_addr (b ∷ bs) (c ∷ cs) same in
    let below = used-below c.size c.start_addr (a + b.size) e bs t.2 in
    elim (Bool-cases b.is_free) [ inl free ↦ absurd (ground arith) | inr used' ↦ ground arith ]

SameUsed-sym : (bs cs : List Block) → SameUsed bs cs → SameUsed cs bs
SameUsed-sym bs cs same f u = sym (same f u)

same_head :
    (a e : ℕ) (b c : Block) (bs cs : List Block)
    → Tiles a e (b ∷ bs)
    → Tiles a e (c ∷ cs)
    → Apart b.is_free bs
    → Apart c.is_free cs
    → SameUsed (b ∷ bs) (c ∷ cs)
    → (b.size ≡ c.size) × (b.is_free ≡ c.is_free)
same_head a e b c bs cs t u apart apart' same = elim (Bool-cases c.is_free) [
  | inr used ↦ let (s, f) = used_head a e b c bs cs t u same used in (s, f ∙ sym used)
  | inl free ↦ elim (Bool-cases b.is_free) [
    | inr used ↦
        let (s, f) = used_head a e c b cs bs u t (SameUsed-sym (b ∷ bs) (c ∷ cs) same) used in
        (sym s, used ∙ sym f)
    | inl free' ↦ (
      omega (
        arith,
        not_shorter a e b c bs cs t u (rw free' at apart) free free' same,
        not_shorter a e c b cs bs u t (rw free at apart') free' free
            (SameUsed-sym (b ∷ bs) (c ∷ cs) same),
      ),
      free' ∙ sym free,
    )
  ]
]

pub Block_ext :
    (b c : Block) → b.start_addr ≡ c.start_addr → b.size ≡ c.size → b.is_free ≡ c.is_free → b ≡ c
Block_ext b c p q r = λ i. record { start_addr = p i; size = q i; is_free = r i }

-- Two lists that tile one range, with no two free neighbours and the same used blocks, are equal.
pub addr_list_canonical :
    (a e : ℕ) (bs cs : List Block)
    → Tiles a e bs
    → Tiles a e cs
    → Apart false bs
    → Apart false cs
    → SameUsed bs cs
    → bs ≡ cs
addr_list_canonical a e [] [] t u apart apart' same = refl
addr_list_canonical a e [] (c ∷ cs) t u apart apart' same =
    absurd (omega (arith, Tiles-le (a + c.size) e cs u.2))
addr_list_canonical a e (b ∷ bs) [] t u apart apart' same =
    absurd (omega (arith, Tiles-le (a + b.size) e bs t.2))
addr_list_canonical a e (b ∷ bs) (c ∷ cs) t u apart apart' same =
    let (size, free) = same_head a e b c bs cs t u apart.1 apart'.1 same in
    let head : b ≡ c = Block_ext b c (t.0 ∙ sym u.0) size free in
    ap₂ ◌∷◌ head (
      addr_list_canonical (a + b.size) e bs cs t.2 (rw size u.2) (Apart-weaken b.is_free bs apart.1)
        (Apart-weaken c.is_free cs apart'.1) (λ f o. omega (arith, same f o, ap f head)))

pub used-back :
    (k i a m : ℕ) (bs : List Block) → TilesBack a m bs → m ≤ i → total (used_at k i) bs ≡ 0
used-back k i a m [] t le = refl
used-back k i a m (b ∷ bs) t le = ground (arith, used-back k i a b.start_addr bs t.2)

pub used-locate-none :
    (k i : ℕ) (before bs : List Block) → locate i before bs ≡ none → total (used_at k i) bs ≡ 0
unfolding locate
used-locate-none k i before [] lost = refl
used-locate-none k i before (b ∷ bs) lost = elim (Bool-cases (b.start_addr == i)) [
  | inl hit ↦ absurd (some-ne-none _ (rw hit at lost))
  | inr miss ↦ ground (arith, used-locate-none k i (b ∷ before) bs (rw miss at lost))
]

-- At a cursor's address the list has the cursor's block and no other.
pub used-cursor :
    {base limit addr : ℕ} {bs : List Block} {c : Cursor} (k : ℕ)
    → IsCursor base limit addr bs c
    → total (used_at k addr) bs ≡ used_at k addr c.here
used-cursor {base} {limit} {addr} {c} k at = omega (
  arith,
  ap (total (used_at k addr)) at.whole,
  total-rejoin (used_at k addr) c.before (c.here ∷ c.after),
  used-back k addr base addr c.before at.back,
  used-below k addr (addr + c.here.size) limit c.after at.ahead,
  at.pos,
)
