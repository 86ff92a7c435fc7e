-- ===== src/Slab/Counts.antt =====
-- Sums over the numbers below a bound, by which the clear bits of a vector are counted.
use allocator_bench.Base.{ℕ, zero, suc, ◌+◌, ◌<◌, ◌≡◌, ◌≢◌, arith, eq_or_ne, inl, inr, refl}

abbrev pub sum_below : ℕ → (ℕ → ℕ) → ℕ
sum_below zero p = 0
sum_below (suc n) p = sum_below n p + p n

pub sum_below-same :
    (n : ℕ) (p q : ℕ → ℕ) → ((t : ℕ) → t < n → p t ≡ q t) → sum_below n p ≡ sum_below n q
sum_below-same zero p q same = refl
sum_below-same (suc n) p q same =
    omega (arith, sum_below-same n p q (λ t lt. same t (omega arith)), same n (omega arith))

-- One place changes.
pub sum_below-change :
    (n at : ℕ) (p q : ℕ → ℕ)
    → at < n
    → ((t : ℕ) → t < n → t ≢ at → p t ≡ q t)
    → sum_below n p + q at ≡ sum_below n q + p at
sum_below-change zero at p q lt same = absurd (omega arith)
sum_below-change (suc n) at p q lt same = elim (eq_or_ne at n) [
  | inl e ↦
      rw e
        (omega (arith, sum_below-same n p q (λ t below. same t (omega arith) (λ e'. omega arith))))
  | inr ne ↦ omega (
    arith,
    sum_below-change n at p q (omega arith) (λ t below. same t (omega arith)),
    same n (omega arith) (λ e. ne (omega arith)),
  )
]

pub sum_below-zero : (n : ℕ) (p : ℕ → ℕ) → ((t : ℕ) → t < n → p t ≡ 0) → sum_below n p ≡ 0
sum_below-zero zero p zeros = refl
sum_below-zero (suc n) p zeros =
    omega (arith, sum_below-zero n p (λ t lt. zeros t (omega arith)), zeros n (omega arith))

pub zero_of_sum_below : (n : ℕ) (p : ℕ → ℕ) → sum_below n p ≡ 0 → (t : ℕ) → t < n → p t ≡ 0
zero_of_sum_below zero p empty t lt = absurd (omega arith)
zero_of_sum_below (suc n) p empty t lt = elim (eq_or_ne t n) [
  | inl e ↦ rw e (omega arith)
  | inr ne ↦ zero_of_sum_below n p (omega arith) t (omega arith)
]

pub sum_below-le : (n : ℕ) (p : ℕ → ℕ) → ((t : ℕ) → p t < 2) → sum_below n p < suc n
sum_below-le zero p small = omega arith
sum_below-le (suc n) p small = omega (arith, sum_below-le n p small, small n)

pub sum_below-one : (n : ℕ) (p : ℕ → ℕ) → ((t : ℕ) → t < n → p t ≡ 1) → sum_below n p ≡ n
sum_below-one zero p ones = refl
sum_below-one (suc n) p ones =
    omega (arith, sum_below-one n p (λ t lt. ones t (omega arith)), ones n (omega arith))
