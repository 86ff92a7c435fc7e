-- ===== src/Bitvector/Bit.antt =====
-- The operations of utils/bitvector.c on one bit, and the creation of a vector.
use allocator_bench.Base.{
  ℕ, ◌+◌, ◌-◌, ◌*◌, ◌/◌, ◌%◌, ◌^◌, ◌<◌, ◌≤◌, ◌≡◌, Bool-cases, ==-ne, le_of_leb, lt_of_leb, if_cases,
  ltb-le, ltb-lt, lt_of_ltb, inl, inr, eq_or_ne, refl, sym, ◌∙◌, ap, Bool, true, false, not, ◌&&◌,
  arith, bit_and, bit_or, Option, some, ltb, leb, ◌==◌, if◌then◌else◌, set, length, length-set,
  get_or-set_self, get_or-set_ne, get_or-replicate, length-replicate, replicate,
}
use allocator_bench.Base.Bits.{test_bit}
use allocator_bench.Bitvector.{
  Bitvector, chunk_at, chunk_bitmask, not64, write_chunk, set_bit, clear_bit, is_bit_set, create,
  num_chunks, u64,
}
use allocator_bench.Bitvector.Words.{
  test_bit-set, test_bit-clear, masked_test, bit_or-lt, bit_and-le, pow_lt, chunk_bitmask_lem,
  num_chunks_lem, test_bit-of_zero,
}

-- Bit `i` of the vector.
abbrev pub bit_of : Bitvector → ℕ → ℕ
bit_of b i = test_bit (chunk_at b.chunks (i / 64)) (i % 64)

-- The right number of chunks for the size, each a word.
pub record IsValid (b : Bitvector) : Type 0 where
  pub nonempty : 0 < b.num_bits
  pub bounded : b.num_bits ≤ 2 ^ 64 - 64
  pub num_chunks : length b.chunks ≡ (b.num_bits + 63) / 64
  pub words : (i : ℕ) → chunk_at b.chunks i < 2 ^ 64

-- The vector after a write of `v` to bit `bit`: as it was, chunks included, if it has no such bit.
pub record Written (b : Bitvector) (bit v : ℕ) (after : Bitvector) : Type 0 where
  pub same_size : after.num_bits ≡ b.num_bits
  pub valid : IsValid after
  pub bits : (j : ℕ) → j < b.num_bits → bit_of after j ≡ (if j == bit then v else bit_of b j)
  pub beyond : b.num_bits ≤ bit → after ≡ b

-- A run that writes `v` to bit `bit` if the vector has it, and says whether it has.
abbrev pub Writes : Bitvector → (bit v : ℕ) → Bool × Option Bitvector → Type 0
Writes b bit v result =
    (after : Bitvector) × ((result ≡ (ltb bit b.num_bits, some after)) × Written b bit v after)

module _ (b : Bitvector) (valid : IsValid b) where
  -- A write of one word that is right on each bit of it.
  write_chunk-Written :
      (bit v : ℕ) (f : ℕ → ℕ)
      → bit < b.num_bits
      → ((w : ℕ) → w < 2 ^ 64 → f w < 2 ^ 64)
      → ((w j : ℕ) → j < 64 → test_bit (f w) j ≡ (if j == bit % 64 then v else test_bit w j))
      → Written b bit v (write_chunk b (bit / 64) f)
  write_chunk-Written bit v f lt word right =
      let at : ℕ = bit / 64 in
      let old : ℕ = chunk_at b.chunks at in
      let inside : at < length b.chunks = omega (arith, valid.num_chunks) in
      let hit : chunk_at (set b.chunks at (f old)) at ≡ f old =
        get_or-set_self b.chunks at (f old) 0 inside in
      record {
        same_size = refl;
        valid = record {
          nonempty = valid.nonempty;
          bounded = valid.bounded;
          num_chunks = length-set b.chunks at (f old) ∙ valid.num_chunks;
          words = λ i. elim (eq_or_ne i at) [
            | inl e ↦ rw (e, hit) (word old (valid.words at))
            | inr n ↦ rw (get_or-set_ne b.chunks at i (f old) 0 (λ e. n (sym e))) (valid.words i)
          ];
        };
        bits = λ j jlt. elim (eq_or_ne (j / 64) at) [
          | inl e ↦ rw (e, hit) (ground (arith, right old (j % 64) (omega arith)))
          | inr n ↦
              rw (get_or-set_ne b.chunks at (j / 64) (f old) 0 (λ e. n (sym e))) (ground arith)
        ];
        beyond = λ le. absurd (omega arith);
      }

  -- The inline form and the form with a pointer read and write the same place.
  in_place {ℓ} :
      {A : Type ℓ} (F : ℕ → A) (bit : ℕ)
      → bit < b.num_bits
      → (if leb b.num_bits 64 then F 0 else F (bit / 64)) ≡ F (bit / 64)
  in_place F bit lt =
      if_cases (λ x. x ≡ F (bit / 64)) (leb b.num_bits 64) (F 0) (F (bit / 64))
        (λ small. ap F (omega (arith, le_of_leb b.num_bits 64 small))) (λ _. refl)

  set-Written :
      (bit : ℕ)
      → bit < b.num_bits
      → Written b bit 1 (write_chunk b (bit / 64) (λ w. bit_or w (chunk_bitmask bit)))
  set-Written bit lt =
      write_chunk-Written bit 1 (λ w. bit_or w (chunk_bitmask bit)) lt
        (λ w word.
          bit_or-lt 64 w (chunk_bitmask bit) word
            (rw (chunk_bitmask_lem bit) (pow_lt (bit % 64) (omega arith))))
        (λ w j _. test_bit-set w bit j)

  clear-Written :
      (bit : ℕ)
      → bit < b.num_bits
      → Written b bit 0 (write_chunk b (bit / 64) (λ w. bit_and w (not64 (chunk_bitmask bit))))
  clear-Written bit lt =
      write_chunk-Written bit 0 (λ w. bit_and w (not64 (chunk_bitmask bit))) lt
        (λ w word. omega (arith, bit_and-le w w (not64 (chunk_bitmask bit)) (omega arith)))
        (λ w j lt'. test_bit-clear w bit j lt')

  -- Nothing written, to a bit that the vector does not have.
  unwritten : (bit v : ℕ) → b.num_bits ≤ bit → Written b bit v b
  unwritten bit v le = record {
    same_size = refl;
    valid = valid;
    bits = λ j lt. ground arith;
    beyond = λ _. refl;
  }

  -- What set_bit and clear_bit have in common.
  guarded :
      (bit v : ℕ) (F : ℕ → Bool × Option Bitvector) (after : Bitvector)
      → F (bit / 64) ≡ (true, some after)
      → (bit < b.num_bits → Written b bit v after)
      → Writes b bit v (
          if leb b.num_bits bit
          then (false, some b)
          else (if leb b.num_bits 64 then F 0 else F (bit / 64)))
  guarded bit v F after e written =
      if_cases (Writes b bit v) (leb b.num_bits bit) (false, some b)
        (if leb b.num_bits 64 then F 0 else F (bit / 64))
        (λ out.
          let le : b.num_bits ≤ bit = le_of_leb b.num_bits bit out in
          (b, (ap (λ x. (x, some b)) (sym (ltb-le bit b.num_bits le)), unwritten bit v le)))
        (λ inside.
          let lt : bit < b.num_bits = lt_of_leb b.num_bits bit inside in
          (
            after,
            (
              in_place F bit lt ∙ e ∙ ap (λ x. (x, some after)) (sym (ltb-lt bit b.num_bits lt)),
              written lt,
            ),
          ))

  -- Setting a bit of a valid vector returns true exactly when the vector has the bit; then that bit
  -- is 1, every other bit is what it was, and the vector is valid. Otherwise nothing changes.
  pub set_bit-Writes : (bit : ℕ) → Writes b bit 1 (set_bit (some b) bit)
  unfolding set_bit
  set_bit-Writes bit =
      guarded bit 1 (λ i. (true, some (write_chunk b i (λ w. bit_or w (chunk_bitmask bit)))))
        (write_chunk b (bit / 64) (λ w. bit_or w (chunk_bitmask bit))) refl (set-Written bit)

  -- Clearing a bit of a valid vector returns true exactly when the vector has the bit; then that
  -- bit is 0, every other bit is what it was, and the vector is valid. Otherwise nothing changes.
  pub clear_bit-Writes : (bit : ℕ) → Writes b bit 0 (clear_bit (some b) bit)
  unfolding clear_bit
  clear_bit-Writes bit =
      guarded bit 0
        (λ i. (true, some (write_chunk b i (λ w. bit_and w (not64 (chunk_bitmask bit))))))
        (write_chunk b (bit / 64) (λ w. bit_and w (not64 (chunk_bitmask bit)))) refl
        (clear-Written bit)

-- What is_bit_set returns is the bit, and false for a bit that the vector does not have.
pub is_bit_set_lem :
    (b : Bitvector) (bit : ℕ)
    → IsValid b
    → is_bit_set (some b) bit ≡ (ltb bit b.num_bits && (bit_of b bit == 1))
unfolding is_bit_set
is_bit_set_lem b bit valid =
    if_cases (λ x. x ≡ (ltb bit b.num_bits && (bit_of b bit == 1))) (leb b.num_bits bit) false
      (if leb b.num_bits 64
        then not (bit_and (chunk_at b.chunks 0) (chunk_bitmask bit) == 0)
        else not (bit_and (chunk_at b.chunks (bit / 64)) (chunk_bitmask bit) == 0))
      (λ out. rw (ltb-le bit b.num_bits (le_of_leb b.num_bits bit out)) refl)
      (λ inside.
        let lt : bit < b.num_bits = lt_of_leb b.num_bits bit inside in
        rw
          (
            in_place b valid (λ i. not (bit_and (chunk_at b.chunks i) (chunk_bitmask bit) == 0)) bit
                lt,
            ltb-lt bit b.num_bits lt,
          )
          (masked_test (chunk_at b.chunks (bit / 64)) bit))

is_bit_set-Writes :
    (b : Bitvector) (bit v j : ℕ) (result : Bool × Option Bitvector)
    → IsValid b
    → Writes b bit v result
    → is_bit_set result.1 j
      ≡ (if ltb j b.num_bits && (j == bit) then v == 1 else is_bit_set (some b) j)
is_bit_set-Writes b bit v j result valid (after, (e, w)) =
    rw (e, is_bit_set_lem after j w.valid, is_bit_set_lem b j valid, w.same_size)
      (elim (Bool-cases (ltb j b.num_bits)) [
        | inl lt ↦
            rw (lt, w.bits j (lt_of_ltb j b.num_bits lt))
              (if_cases (λ x. (x == 1) ≡ (if j == bit then v == 1 else bit_of b j == 1)) (j == bit)
                v (bit_of b j) (λ t. rw t refl) (λ t. rw t refl))
        | inr ge ↦ rw ge refl
      ])

-- After a bit of a valid vector is set, is_bit_set is true for that bit, if the vector has it, and
-- returns for every other bit what it returned before.
pub is_bit_set-set_bit :
    (b : Bitvector) (bit j : ℕ)
    → IsValid b
    → is_bit_set (set_bit (some b) bit).1 j
      ≡ (if ltb j b.num_bits && (j == bit) then true else is_bit_set (some b) j)
is_bit_set-set_bit b bit j valid =
    is_bit_set-Writes b bit 1 j (set_bit (some b) bit) valid (set_bit-Writes b valid bit)

-- After a bit of a valid vector is cleared, is_bit_set is false for that bit and returns for every
-- other bit what it returned before.
pub is_bit_set-clear_bit :
    (b : Bitvector) (bit j : ℕ)
    → IsValid b
    → is_bit_set (clear_bit (some b) bit).1 j
      ≡ (if ltb j b.num_bits && (j == bit) then false else is_bit_set (some b) j)
is_bit_set-clear_bit b bit j valid =
    is_bit_set-Writes b bit 0 j (clear_bit (some b) bit) valid (clear_bit-Writes b valid bit)

-- A vector of the given size with every bit clear.
pub record IsCleared (num_bits : ℕ) (b : Bitvector) : Type 0 where
  pub size : b.num_bits ≡ num_bits
  pub valid : IsValid b
  pub clear : (i : ℕ) → bit_of b i ≡ 0

-- If both calls of calloc succeed, create returns, for each size from 1 to 2^64 - 64, a valid
-- vector of that size with every bit clear.
pub create-IsCleared :
    (n : ℕ)
    → 0 < n
    → n ≤ 2 ^ 64 - 64
    → (b : Bitvector) × ((create true true n ≡ some b) × IsCleared n b)
unfolding create
create-IsCleared n positive bounded =
    let size : ℕ = if leb n 64 then 1 else num_chunks n in
    let chunks : num_chunks n ≡ (n + 63) / 64 = num_chunks_lem n bounded in
    let length_ok : size ≡ (n + 63) / 64 =
      if_cases (λ x. x ≡ (n + 63) / 64) (leb n 64) 1 (num_chunks n)
        (λ small. omega (arith, le_of_leb n 64 small)) (λ _. chunks) in
    let zero_chunk : (i : ℕ) → chunk_at (replicate size 0) i ≡ 0 = λ i. get_or-replicate size i 0 in
    let b : Bitvector = record { num_bits = n; chunks = replicate size 0 } in
    (
      b,
      (
        rw (==-ne (u64 (num_chunks n * 8)) 0 (omega (arith, chunks)))
            (elim (Bool-cases (leb n 64)) [ inl t ↦ rw t refl | inr t ↦ rw t refl ]),
        record {
          size = refl;
          valid = record {
            nonempty = positive;
            bounded = bounded;
            num_chunks = length-replicate size 0 ∙ length_ok;
            words = λ i. rw (zero_chunk i) (omega arith);
          };
          clear = λ i. rw (zero_chunk (i / 64)) (test_bit-of_zero (i % 64));
        },
      ),
    )
