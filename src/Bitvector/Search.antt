-- ===== src/Bitvector/Search.antt =====
-- The search of utils/bitvector.c for the lowest bit of a range that is set, or clear.
use allocator_bench.Base.{
  ℕ, zero, suc, ◌+◌, ◌-◌, ◌*◌, ◌/◌, ◌%◌, ◌^◌, ◌<◌, ◌≤◌, ◌≡◌, refl, ◌∙◌, Bool, true, false, not,
  ◌&&◌, arith, Option, none, some, List, bit_and, ltb, leb, ◌==◌, if◌then◌else◌, if_cases,
  Bool-cases, inl, inr,
}
use allocator_bench.Base.Bits.{test_bit, test_bit-lt, test_bit-bit_and}
use allocator_bench.Bitvector.{
  Bitvector, chunk_at, chunk_bitmask, not64, range_mask, first_set, candidates, find_lowest_loop,
  find_lowest_bit_in_range, bad_range,
}
use allocator_bench.Bitvector.Words.{masked_test, test_bit-of_zero, test_bit-not64}
use allocator_bench.Bitvector.Ranges.{test_bit-range_mask}
use allocator_bench.Bitvector.Bit.{IsValid, bit_of}

-- The least position from `lo` on and below `hi` where `p` is 1, or none where it is 0 throughout.
abbrev pub First : (ℕ → ℕ) → (lo hi : ℕ) → Option ℕ → Type 0
First p lo hi none = (t : ℕ) → lo ≤ t → t < hi → p t ≡ 0
First p lo hi (some r) = (lo ≤ r) × (r < hi) × (p r ≡ 1) × ((t : ℕ) → lo ≤ t → t < r → p t ≡ 0)

-- Where `p` is 0 at first, the search may start later.
First-skip :
    (p : ℕ → ℕ) (lo mid hi : ℕ) (found : Option ℕ)
    → lo ≤ mid
    → ((t : ℕ) → lo ≤ t → t < mid → p t ≡ 0)
    → First p mid hi found
    → First p lo hi found
First-skip p lo mid hi none le zeros f = λ t a b. elim (Bool-cases (ltb t mid)) [
  | inl early ↦ zeros t a (ground arith)
  | inr late ↦ f t (ground arith) b
]
First-skip p lo mid hi (some r) le zeros (from, below, is_one, least) = (
  omega arith,
  below,
  is_one,
  λ t a b. elim (Bool-cases (ltb t mid)) [
    | inl early ↦ zeros t a (ground arith)
    | inr late ↦ least t (ground arith) b
  ],
)

-- A find stands whatever follows.
First-extend :
    (p : ℕ → ℕ) (lo mid hi r : ℕ) → mid ≤ hi → First p lo mid (some r) → First p lo hi (some r)
First-extend p lo mid hi r le (from, below, is_one, least) = (from, omega arith, is_one, least)

-- The loop over the bits of a word.
first_set-First : (n j w : ℕ) → j + n ≤ 64 → First (test_bit w) j (j + n) (first_set n j w)
unfolding first_set
first_set-First zero j w fits = λ t a b. absurd (omega arith)
first_set-First (suc n) j w fits =
    if_cases (First (test_bit w) j (j + suc n)) (not (bit_and w (chunk_bitmask j) == 0)) (some j)
      (first_set n (j + 1) w)
      (λ hit. (omega arith, omega arith, is_one hit, λ t a b. absurd (omega arith)))
      (λ miss.
        First-skip (test_bit w) j (j + 1) (j + suc n) (first_set n (j + 1) w) (omega arith)
          (λ t a b. is_zero miss t a b) (rw shift at (first_set-First n (j + 1) w (omega arith))))
  where
    shift : j + 1 + n ≡ j + suc n
    shift = omega arith

    at : j % 64 ≡ j
    at = omega arith

    is_one : not (bit_and w (chunk_bitmask j) == 0) ≡ true → test_bit w j ≡ 1
    is_one hit = let e = rw at at (masked_test w j) in ground arith

    is_zero :
        not (bit_and w (chunk_bitmask j) == 0) ≡ false
        → (t : ℕ) → j ≤ t
        → t < j + 1
        → test_bit w t ≡ 0
    is_zero miss t a b =
        let e = rw at at (masked_test w j) in
        let here : t ≡ j = omega arith in rw here (ground (arith, test_bit-lt w j))

module _ (find_clear_bit : Bool) (low_bit high_bit : ℕ) (chunks : List ℕ) where
  -- The loop looks for a 1 of this.
  pub candidate_bit : ℕ → ℕ
  candidate_bit t = test_bit (candidates find_clear_bit low_bit high_bit (t / 64) chunks) (t % 64)

  candidate_at :
      (i t : ℕ)
      → i * 64 ≤ t
      → t < i * 64 + 64
      → candidate_bit t
        ≡ test_bit (candidates find_clear_bit low_bit high_bit i chunks) (t - i * 64)
  unfolding candidate_bit
  candidate_at i t a b =
      let chunk : t / 64 ≡ i = omega arith in
      let place : t % 64 ≡ t - i * 64 = omega arith in rw (chunk, place) refl

  -- What the search in one chunk finds, in positions of the vector.
  in_chunk :
      (i : ℕ) (found : Option ℕ)
      → First (test_bit (candidates find_clear_bit low_bit high_bit i chunks)) 0 64 found
      → (rest : Option ℕ) (hi : ℕ) → i * 64 + 64 ≤ hi
      → First candidate_bit (i * 64 + 64) hi rest
      → First candidate_bit (i * 64) hi (elim found [ none ↦ rest | some j ↦ some (i * 64 + j) ])
  in_chunk i none zeros rest hi le f =
      First-skip candidate_bit (i * 64) (i * 64 + 64) hi rest (omega arith)
        (λ t a b.
          omega (arith, candidate_at i t a b, zeros (t - i * 64) (omega arith) (omega arith)))
        f
  in_chunk i (some j) (from, below, is_one, least) rest hi le f = (
    omega arith,
    omega arith,
    (let place : i * 64 + j - i * 64 ≡ j = omega arith in
        candidate_at i (i * 64 + j) (omega arith) (omega arith) ∙ rw place is_one),
    λ t a b.
        omega
          (arith, candidate_at i t a (omega arith), least (t - i * 64) (omega arith) (omega arith)),
  )

  -- The loop over the chunks.
  find_lowest_loop-First :
      (n i : ℕ)
      → First candidate_bit
          (i * 64)
          ((i + n) * 64)
          (find_lowest_loop find_clear_bit low_bit high_bit n i chunks)
  unfolding find_lowest_loop
  find_lowest_loop-First zero i = λ t a b. absurd (omega arith)
  find_lowest_loop-First (suc n) i =
      let word : ℕ = candidates find_clear_bit low_bit high_bit i chunks in
      let rest : Option ℕ = find_lowest_loop find_clear_bit low_bit high_bit n (i + 1) chunks in
      let start : (i + 1) * 64 ≡ i * 64 + 64 = omega arith in
      let end : (i + 1 + n) * 64 ≡ (i + suc n) * 64 = omega arith in
      let later : First candidate_bit (i * 64 + 64) ((i + suc n) * 64) rest =
        rw (start, end) at (find_lowest_loop-First n (i + 1)) in
      if_cases (First candidate_bit (i * 64) ((i + suc n) * 64)) (not (word == 0)) _ rest
        (λ some_bit.
          in_chunk i (first_set 64 0 word) (first_set-First 64 0 word (omega arith)) rest
            ((i + suc n) * 64) (omega arith) later)
        (λ no_bit.
          let empty : word ≡ 0 = ground arith in
          in_chunk i none (λ t a b. rw empty (test_bit-of_zero t)) rest ((i + suc n) * 64)
            (omega arith) later)

-- What is looked for: 1 where the bit is set, or where it is clear.
abbrev pub wanted : Bool → Bitvector → ℕ → ℕ
wanted find_clear_bit b t = if find_clear_bit then 1 - bit_of b t else bit_of b t

wanted_word :
    (find_clear_bit : Bool) (w j : ℕ)
    → j < 64
    → w < 2 ^ 64
    → test_bit (if find_clear_bit then not64 w else w) j
      ≡ (if find_clear_bit then 1 - test_bit w j else test_bit w j)
wanted_word true w j lt fits = test_bit-not64 j w lt fits
wanted_word false w j lt fits = refl

wanted-lt : (find_clear_bit : Bool) (b : Bitvector) (t : ℕ) → wanted find_clear_bit b t < 2
wanted-lt true b t = omega arith
wanted-lt false b t = test_bit-lt (chunk_at b.chunks (t / 64)) (t % 64)

-- A search through a larger range in which `p` is `q` on the range wanted and 0 elsewhere.
First-narrow :
    (p q : ℕ → ℕ) (lo hi low_bit high_bit : ℕ) (found : Option ℕ)
    → lo ≤ low_bit
    → high_bit < hi
    → ((t : ℕ) → lo ≤ t → t < hi → p t ≡ (if leb low_bit t && leb t high_bit then q t else 0))
    → First p lo hi found
    → First q low_bit (high_bit + 1) found
First-narrow p q lo hi low_bit high_bit none le lt same zeros =
    λ t a b. ground (arith, same t (omega arith) (omega arith), zeros t (omega arith) (omega arith))
First-narrow p q lo hi low_bit high_bit (some r) le lt same (from, below, is_one, least) = (
  ground (arith, same r from below),
  ground (arith, same r from below),
  ground (arith, same r from below),
  λ t a b. ground (
    arith,
    same r from below,
    same t (omega arith) (omega arith),
    least t (omega arith) (omega arith),
  ),
)

module _ (find_clear_bit : Bool) (b : Bitvector) (low_bit high_bit : ℕ) (valid : IsValid b) where
  -- In the chunks of the range, the loop's candidates are the positions wanted in the range.
  candidate_bit-wanted :
      (t : ℕ)
      → low_bit / 64 ≤ t / 64
      → t / 64 ≤ high_bit / 64
      → candidate_bit find_clear_bit low_bit high_bit b.chunks t
        ≡ (if leb low_bit t && leb t high_bit then wanted find_clear_bit b t else 0)
  unfolding candidate_bit candidates
  candidate_bit-wanted t from upto =
      let old : ℕ = chunk_at b.chunks (t / 64) in
      let word : ℕ = if find_clear_bit then not64 old else old in
      rw
        (
          test_bit-bit_and (t % 64) (range_mask low_bit high_bit (t / 64)) word,
          test_bit-range_mask low_bit high_bit t from upto,
          wanted_word find_clear_bit old (t % 64) (omega arith) (valid.words (t / 64)),
        )
        (elim (Bool-cases (leb low_bit t && leb t high_bit)) [
          | inl inside ↦ rw inside (omega (arith, wanted-lt find_clear_bit b t))
          | inr outside ↦ rw outside (omega arith)
        ])

  -- For a range inside a valid vector the search finds the least position in the range whose bit is
  -- the one looked for (set, or clear), or nothing, and then no bit of the range is such a bit.
  pub find_lowest_bit_in_range-First :
      low_bit ≤ high_bit
      → high_bit < b.num_bits
      → First
          (wanted find_clear_bit b)
          low_bit
          (high_bit + 1)
          (find_lowest_bit_in_range find_clear_bit (some b) low_bit high_bit)
  unfolding find_lowest_bit_in_range
  find_lowest_bit_in_range-First ordered inside =
      let good : bad_range b low_bit high_bit ≡ false = ground (arith, valid.bounded) in
      let first : ℕ = low_bit / 64 in
      let count : ℕ = high_bit / 64 + 1 - first in
      rw good (
        First-narrow (candidate_bit find_clear_bit low_bit high_bit b.chunks)
          (wanted find_clear_bit b) (first * 64) ((first + count) * 64) low_bit high_bit
          (find_lowest_loop find_clear_bit low_bit high_bit count first b.chunks) (omega arith)
          (omega arith) (λ t a c. candidate_bit-wanted t (omega arith) (omega arith))
          (find_lowest_loop-First find_clear_bit low_bit high_bit b.chunks count first))
