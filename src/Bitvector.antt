-- ===== src/Bitvector.antt =====
-- utils/bitvector.c: bits in 64-bit chunks.
-- A vector of up to 64 bits is kept in the place of the pointer to the chunks (`inlineVec`); both
-- forms are the list of chunks here, of one chunk in the first case. A null pointer is `none`. An
-- operation returns its NvBool with the vector that it leaves; an operation with a `bit_out`
-- returns the bit, or `none` for NV_FALSE.
pub mod Words
pub mod Bit
pub mod Ranges
pub mod Search
mod Examples
use allocator_bench.Base.{
  ℕ, zero, suc, ◌+◌, ◌-◌, ◌*◌, ◌/◌, ◌%◌, ◌^◌, Bool, true, false, not, ◌&&◌, ◌||◌, Option, none,
  some, List, [], ◌∷◌, ◌++◌, bit_and, bit_or, ltb, leb, ◌==◌, if◌then◌else◌, get_or, set, replicate,
}

pub record Bitvector : Type 0 where
  pub num_bits : ℕ
  pub chunks : List ℕ

abbrev pub bits_per_chunk : ℕ
bits_per_chunk = 64

abbrev pub u64 : ℕ → ℕ
u64 n = n % 2 ^ 64

-- ~0ULL, ~w, w << k and w >> k on NvU64.
abbrev pub all_ones : ℕ
all_ones = 2 ^ 64 - 1

abbrev pub not64 : ℕ → ℕ
not64 w = all_ones - w

abbrev pub shl64 : ℕ → ℕ → ℕ
shl64 w k = u64 (w * 2 ^ k)

abbrev pub shr64 : ℕ → ℕ → ℕ
shr64 w k = w / 2 ^ k

abbrev pub chunk_index : ℕ → ℕ
chunk_index bit = bit / bits_per_chunk

unfoldable pub chunk_bitmask : ℕ → ℕ
chunk_bitmask bit = 2 ^ bit_and bit (bits_per_chunk - 1)

unfoldable pub round_up : ℕ → ℕ → ℕ
round_up x n = bit_and (u64 (x + (n - 1))) (not64 (n - 1))

unfoldable pub num_chunks : ℕ → ℕ
unfolding round_up
num_chunks num_bits = round_up num_bits bits_per_chunk / bits_per_chunk

unfoldable pub bits_in_last_chunk : ℕ → ℕ
bits_in_last_chunk num_bits = u64 (num_bits + 2 ^ 64 - 1) % bits_per_chunk + 1

abbrev pub chunk_at : List ℕ → ℕ → ℕ
chunk_at chunks i = get_or chunks i 0

-- The two calls of `calloc`: for the structure, and for the chunks of a vector that is not inline.
unfoldable pub create : (has_struct has_chunks : Bool) → ℕ → Option Bitvector
unfolding num_chunks
create has_struct has_chunks num_bits =
    if u64 (num_chunks num_bits * 8) == 0
    then none
    else if has_struct && (leb num_bits bits_per_chunk || has_chunks)
    then some (record {
      num_bits = num_bits;
      chunks = replicate (if leb num_bits bits_per_chunk then 1 else num_chunks num_bits) 0;
    })
    else none

unfoldable pub get_size : Option Bitvector → ℕ
get_size none = 0
get_size (some b) = b.num_bits

unfoldable pub create_copy : (has_struct has_chunks : Bool) → Option Bitvector → Option Bitvector
create_copy has_struct has_chunks none = none
create_copy has_struct has_chunks (some original) =
    elim (create has_struct has_chunks original.num_bits) [
      | none ↦ none
      | some copy ↦ some (record copy { chunks = original.chunks })
    ]

-- `realloc` or `calloc` is called when the number of chunks grows. The new size is taken to be at
-- most 2^64 - 64: above that the source's rounding wraps.
unfoldable pub grow : Bool → Option Bitvector → ℕ → Bool × Option Bitvector
unfolding num_chunks
grow has_memory none new_num_bits = (false, none)
grow has_memory (some b) new_num_bits =
    if leb new_num_bits b.num_bits
    then (true, some b)
    else let more : ℕ = num_chunks new_num_bits - num_chunks b.num_bits in
      if more == 0
      then (true, some (record b { num_bits = new_num_bits }))
      else if has_memory
      then (true, some (record { num_bits = new_num_bits; chunks = b.chunks ++ replicate more 0 }))
      else (false, some b)

-- A write of the chunk that holds a bit.
abbrev pub write_chunk : Bitvector → ℕ → (ℕ → ℕ) → Bitvector
write_chunk b i f = record b { chunks = set b.chunks i (f (chunk_at b.chunks i)) }

unfoldable pub set_bit : Option Bitvector → ℕ → Bool × Option Bitvector
set_bit none bit = (false, none)
set_bit (some b) bit =
    if leb b.num_bits bit
    then (false, some b)
    else if leb b.num_bits bits_per_chunk
    then (true, some (write_chunk b 0 (λ w. bit_or w (chunk_bitmask bit))))
    else (true, some (write_chunk b (chunk_index bit) (λ w. bit_or w (chunk_bitmask bit))))

unfoldable pub clear_bit : Option Bitvector → ℕ → Bool × Option Bitvector
clear_bit none bit = (false, none)
clear_bit (some b) bit =
    if leb b.num_bits bit
    then (false, some b)
    else if leb b.num_bits bits_per_chunk
    then (true, some (write_chunk b 0 (λ w. bit_and w (not64 (chunk_bitmask bit)))))
    else (true, some (write_chunk b (chunk_index bit) (λ w. bit_and w (not64 (chunk_bitmask bit)))))

unfoldable pub is_bit_set : Option Bitvector → ℕ → Bool
is_bit_set none bit = false
is_bit_set (some b) bit =
    if leb b.num_bits bit
    then false
    else if leb b.num_bits bits_per_chunk
    then not (bit_and (chunk_at b.chunks 0) (chunk_bitmask bit) == 0)
    else not (bit_and (chunk_at b.chunks (chunk_index bit)) (chunk_bitmask bit) == 0)

-- `rounds` chunks from the chunk `i` on.
unfoldable pub any_nonzero : (rounds i : ℕ) → List ℕ → Bool
any_nonzero zero i chunks = false
any_nonzero (suc n) i chunks = not (chunk_at chunks i == 0) || any_nonzero n (i + 1) chunks

unfoldable pub is_any_bit_set : Option Bitvector → Bool
is_any_bit_set none = false
is_any_bit_set (some b) =
    if leb b.num_bits bits_per_chunk
    then not (chunk_at b.chunks 0 == 0)
    else any_nonzero (num_chunks b.num_bits) 0 b.chunks

-- The first `num_bits` bits, up to 64.
unfoldable pub lowest_bits_set : ℕ → ℕ
lowest_bits_set num_bits =
    if num_bits == bits_per_chunk then all_ones else not64 (shl64 all_ones num_bits)

unfoldable pub set_all_bits : Option Bitvector → Bool × Option Bitvector
set_all_bits none = (false, none)
set_all_bits (some b) =
    if leb b.num_bits bits_per_chunk
    then (true, some (record b { chunks = lowest_bits_set b.num_bits ∷ [] }))
    else (
      true,
      some (record b {
        chunks =
            replicate (num_chunks b.num_bits - 1) all_ones
            ++ (lowest_bits_set (bits_in_last_chunk b.num_bits) ∷ []);
      }),
    )

-- The guard of the operations on a range, and the bits of chunk `i` that lie in it.
abbrev pub bad_range : Bitvector → (low_bit high_bit : ℕ) → Bool
bad_range b low_bit high_bit = ltb high_bit low_bit || ltb (u64 (b.num_bits + 2 ^ 64 - 1)) high_bit

unfoldable pub range_mask : (low_bit high_bit i : ℕ) → ℕ
range_mask low_bit high_bit i =
    let low_mask : ℕ =
      if i == chunk_index low_bit then shl64 all_ones (low_bit % bits_per_chunk) else all_ones in
    if i == chunk_index high_bit
    then bit_and low_mask (shr64 all_ones (bits_per_chunk - 1 - high_bit % bits_per_chunk))
    else low_mask

-- for (i = low chunk; i <= high chunk; i++) vector[i] = write(i, vector[i])
unfoldable pub write_range : (ℕ → ℕ → ℕ) → (rounds i : ℕ) → List ℕ → List ℕ
write_range write zero i chunks = chunks
write_range write (suc n) i chunks =
    write_range write n (i + 1) (set chunks i (write i (chunk_at chunks i)))

abbrev pub range_rounds : (low_bit high_bit : ℕ) → ℕ
range_rounds low_bit high_bit = chunk_index high_bit + 1 - chunk_index low_bit

unfoldable pub set_bits_in_range : Option Bitvector → ℕ → ℕ → Option Bitvector
set_bits_in_range none low_bit high_bit = none
set_bits_in_range (some b) low_bit high_bit =
    if bad_range b low_bit high_bit
    then some b
    else some (record b {
      chunks =
          write_range (λ i w. bit_or w (range_mask low_bit high_bit i))
            (range_rounds low_bit high_bit) (chunk_index low_bit) b.chunks;
    })

unfoldable pub clear_bits_in_range : Option Bitvector → ℕ → ℕ → Option Bitvector
clear_bits_in_range none low_bit high_bit = none
clear_bits_in_range (some b) low_bit high_bit =
    if bad_range b low_bit high_bit
    then some b
    else some (record b {
      chunks =
          write_range (λ i w. bit_and w (not64 (range_mask low_bit high_bit i)))
            (range_rounds low_bit high_bit) (chunk_index low_bit) b.chunks;
    })

-- The loops that return NV_FALSE at the first chunk that fails a test.
unfoldable pub all_chunks : (ℕ → ℕ → Bool) → (rounds i : ℕ) → List ℕ → Bool
all_chunks test zero i chunks = true
all_chunks test (suc n) i chunks = test i (chunk_at chunks i) && all_chunks test n (i + 1) chunks

unfoldable pub are_all_bits_set_in_range : Option Bitvector → ℕ → ℕ → Bool
are_all_bits_set_in_range none low_bit high_bit = false
are_all_bits_set_in_range (some b) low_bit high_bit =
    if bad_range b low_bit high_bit
    then false
    else all_chunks
        (λ i w. bit_and (range_mask low_bit high_bit i) w == range_mask low_bit high_bit i)
        (range_rounds low_bit high_bit) (chunk_index low_bit) b.chunks

unfoldable pub are_all_bits_clear_in_range : Option Bitvector → ℕ → ℕ → Bool
are_all_bits_clear_in_range none low_bit high_bit = false
are_all_bits_clear_in_range (some b) low_bit high_bit =
    if bad_range b low_bit high_bit
    then false
    else all_chunks
        (λ i w.
          bit_or (not64 (range_mask low_bit high_bit i)) w == not64 (range_mask low_bit high_bit i))
        (range_rounds low_bit high_bit) (chunk_index low_bit) b.chunks

-- for (j = 0; j < bits; j++), and the first bit of the word that is set.
unfoldable pub first_set : (rounds j : ℕ) → ℕ → Option ℕ
first_set zero j w = none
first_set (suc n) j w =
    if not (bit_and w (chunk_bitmask j) == 0) then some j else first_set n (j + 1) w

-- What the loop over the chunks looks for: the bits of the range that are set, or clear.
unfoldable pub candidates : Bool → (low_bit high_bit i : ℕ) → List ℕ → ℕ
candidates find_clear_bit low_bit high_bit i chunks =
    bit_and (range_mask low_bit high_bit i)
      (if find_clear_bit then not64 (chunk_at chunks i) else chunk_at chunks i)

unfoldable pub find_lowest_loop : Bool → (low_bit high_bit rounds i : ℕ) → List ℕ → Option ℕ
find_lowest_loop find_clear_bit low_bit high_bit zero i chunks = none
find_lowest_loop find_clear_bit low_bit high_bit (suc n) i chunks =
    let rest = find_lowest_loop find_clear_bit low_bit high_bit n (i + 1) chunks in
    if not (candidates find_clear_bit low_bit high_bit i chunks == 0)
    then elim (first_set bits_per_chunk 0 (candidates find_clear_bit low_bit high_bit i chunks)) [
      | none ↦ rest
      | some j ↦ some (i * bits_per_chunk + j)
    ]
    else rest

unfoldable pub find_lowest_bit_in_range : Bool → Option Bitvector → ℕ → ℕ → Option ℕ
find_lowest_bit_in_range find_clear_bit none low_bit high_bit = none
find_lowest_bit_in_range find_clear_bit (some b) low_bit high_bit =
    if bad_range b low_bit high_bit
    then none
    else find_lowest_loop find_clear_bit low_bit high_bit (range_rounds low_bit high_bit)
        (chunk_index low_bit) b.chunks

abbrev pub find_lowest_clear_bit_in_range : Option Bitvector → ℕ → ℕ → Option ℕ
find_lowest_clear_bit_in_range = find_lowest_bit_in_range true

abbrev pub find_lowest_set_bit_in_range : Option Bitvector → ℕ → ℕ → Option ℕ
find_lowest_set_bit_in_range = find_lowest_bit_in_range false

-- The loop that looks for the highest bit, over the chunks from `i - 1` down, `rounds` of them.
unfoldable pub last_set : (j : ℕ) → ℕ → Option ℕ
last_set zero w = none
last_set (suc bit) w = if not (bit_and w (chunk_bitmask bit) == 0) then some bit else last_set bit w

unfoldable pub find_highest_loop : Bool → (low_bit high_bit rounds i : ℕ) → List ℕ → Option ℕ
find_highest_loop find_clear_bit low_bit high_bit zero i chunks = none
find_highest_loop find_clear_bit low_bit high_bit (suc n) i chunks =
    let idx : ℕ = i - 1 in
    let rest = find_highest_loop find_clear_bit low_bit high_bit n idx chunks in
    if not (candidates find_clear_bit low_bit high_bit idx chunks == 0)
    then elim (last_set bits_per_chunk (candidates find_clear_bit low_bit high_bit idx chunks)) [
      | none ↦ rest
      | some j ↦ some (idx * bits_per_chunk + j)
    ]
    else rest

unfoldable pub find_highest_bit_in_range : Bool → Option Bitvector → ℕ → ℕ → Option ℕ
find_highest_bit_in_range find_clear_bit none low_bit high_bit = none
find_highest_bit_in_range find_clear_bit (some b) low_bit high_bit =
    if bad_range b low_bit high_bit
    then none
    else find_highest_loop find_clear_bit low_bit high_bit (range_rounds low_bit high_bit)
        (chunk_index high_bit + 1) b.chunks

abbrev pub find_highest_set_bit_in_range : Option Bitvector → ℕ → ℕ → Option ℕ
find_highest_set_bit_in_range = find_highest_bit_in_range false

abbrev pub find_highest_clear_bit_in_range : Option Bitvector → ℕ → ℕ → Option ℕ
find_highest_clear_bit_in_range = find_highest_bit_in_range true

-- for (i = 0; i < bitCount; i++): the first clear bit of a chunk, and the chunk with it set.
unfoldable pub set_lowest_in_chunk : (rounds i : ℕ) → ℕ → Option (ℕ × ℕ)
set_lowest_in_chunk zero i chunk = none
set_lowest_in_chunk (suc n) i chunk =
    if bit_and chunk (chunk_bitmask i) == 0
    then some (i, bit_or chunk (chunk_bitmask i))
    else set_lowest_in_chunk n (i + 1) chunk

unfoldable pub set_lowest_loop : (num_bits rounds i : ℕ) → List ℕ → Option (ℕ × List ℕ)
set_lowest_loop num_bits zero i chunks = none
set_lowest_loop num_bits (suc n) i chunks =
    let rest = set_lowest_loop num_bits n (i + 1) chunks in
    let bits : ℕ = if n == 0 then bits_in_last_chunk num_bits else bits_per_chunk in
    if chunk_at chunks i == all_ones
    then rest
    else elim (set_lowest_in_chunk bits 0 (chunk_at chunks i)) [
      | none ↦ rest
      | some (bit, chunk) ↦ some (i * bits_per_chunk + bit, set chunks i chunk)
    ]

-- With the bit that was set.
unfoldable pub set_lowest_clear_bit : Option Bitvector → Option ℕ × Option Bitvector
set_lowest_clear_bit none = (none, none)
set_lowest_clear_bit (some b) =
    elim (set_lowest_loop b.num_bits (chunk_index (u64 (b.num_bits + 2 ^ 64 - 1)) + 1) 0 b.chunks) [
      | none ↦ (none, some b)
      | some (bit, chunks) ↦ (some bit, some (record b { chunks = chunks }))
    ]

unfoldable pub compare_vectors : Option Bitvector → Option Bitvector → Bool
compare_vectors none b = false
compare_vectors (some a) none = false
compare_vectors (some a) (some b) =
    if a.num_bits == b.num_bits
    then (if leb a.num_bits bits_per_chunk
        then chunk_at a.chunks 0 == chunk_at b.chunks 0
        else all_chunks (λ i w. w == chunk_at b.chunks i) (num_chunks a.num_bits) 0 a.chunks)
    else false

unfoldable pub and_vectors : Option Bitvector → Option Bitvector → Bool × Option Bitvector
and_vectors none b = (false, none)
and_vectors (some dst) none = (false, some dst)
and_vectors (some dst) (some b) =
    if dst.num_bits == b.num_bits
    then (
      true,
      some (record dst {
        chunks =
            write_range (λ i w. bit_and w (chunk_at b.chunks i))
              (if leb dst.num_bits bits_per_chunk then 1 else num_chunks dst.num_bits) 0 dst.chunks;
      }),
    )
    else (false, some dst)
