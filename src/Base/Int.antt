-- ===== src/Base/Int.antt =====
-- A C `int` that is the difference of two numbers.
use Prim.Native.Nat.{ℕ, ◌-◌}
use mathlib.Core.Bool.{Bool, true, false}
use allocator_bench.Base.Tests.{leb, ◌==◌, if◌then◌else◌}

-- `negsuc n` is -(n + 1).
pub data ℤ : Type 0 where
  pos : ℕ → ℤ
  negsuc : ℕ → ℤ

-- a - b
abbrev pub sub_ℕ : ℕ → ℕ → ℤ
sub_ℕ a b = if leb b a then pos (a - b) else negsuc (b - a - 1)

infix 50 ◌==ℤ◌
abbrev pub ◌==ℤ◌ : ℤ → ℤ → Bool
pos m ==ℤ pos n = m == n
pos m ==ℤ negsuc n = false
negsuc m ==ℤ pos n = false
negsuc m ==ℤ negsuc n = m == n

abbrev pub leb_ℤ : ℤ → ℤ → Bool
leb_ℤ (pos m) (pos n) = leb m n
leb_ℤ (pos m) (negsuc n) = false
leb_ℤ (negsuc m) (pos n) = true
leb_ℤ (negsuc m) (negsuc n) = leb n m
