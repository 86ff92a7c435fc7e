-- ===== src/Tracker/Init.antt =====
-- A new tracker of utils/addrtracker.c, and its comparison of addresses.
use Prim.Native.Nat.{compare}
use allocator_bench.Base.{
  ℕ, ◌+◌, ◌-◌, ◌^◌, ◌<◌, ◌≤◌, ◌≡◌, inl, inr, refl, true, false, arith, ltb, leb, ◌==◌, Returns,
}
use allocator_bench.Blocks.{u64}
use allocator_bench.Avl.Insert.{compare_cases}
use allocator_bench.Tracker.{Nodes, compare_addresses, init}
use allocator_bench.Tracker.Spec.{IsValid}

-- The sign of the difference orders numbers below 2^63.
pub compare_addresses_lem :
    (a b : ℕ) → a < 2 ^ 63 → b < 2 ^ 63 → compare_addresses a b ≡ compare a b
compare_addresses_lem a b p q = elim (compare_cases a b) [
  | inl (c, less) ↦
      rw c (let back : leb (2 ^ 63) (u64 (a + 2 ^ 64 - b)) ≡ true = ground arith in rw back refl)
  | inr (inl (c, same)) ↦ rw c (let level : u64 (a + 2 ^ 64 - b) ≡ 0 = omega arith in rw level refl)
  | inr (inr (c, more)) ↦ rw c (
      let ahead : leb (2 ^ 63) (u64 (a + 2 ^ 64 - b)) ≡ false = ground arith in
      let apart : (u64 (a + 2 ^ 64 - b) == 0) ≡ false = ground arith in rw (ahead, apart) refl)
]

-- A new tracker, for a range below 2^63 that is not empty, is valid: its comparison of addresses
-- orders them as numbers, although it takes a signed difference.
pub init-IsValid :
    (nodes : Nodes) (lo after_hi : ℕ)
    → lo < after_hi
    → after_hi ≤ 2 ^ 63
    → Returns (IsValid nodes) (init lo after_hi)
unfolding init
init-IsValid nodes lo after_hi some_range small =
    let meant : ltb lo after_hi ≡ true = ground arith in
    rw meant (record {
      tree = record { avl = tt; sorted = tt; bounded = tt; compares = compare_addresses_lem };
      inside = tt;
      apart = tt;
      single = λ id. omega arith;
      top = small;
    })
