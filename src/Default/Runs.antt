-- ===== src/Default/Runs.antt =====
-- What the callers of src/va_allocator_default.c can count on from the creation of the allocator on,
-- whatever they ask of it.
use allocator_bench.Base.{ℕ, ◌+◌, ◌^◌, ◌<◌, ◌≡◌, true, some, List, ok, Returns, Returns-imp}
use allocator_bench.Blocks.Canonical.{SameUsed}
use allocator_bench.Default.{Allocator, va_reservation_size, init}
use allocator_bench.Default.Valid.{IsValid}
use allocator_bench.Default.Live.{AreApart, live-AreApart}
use allocator_bench.Default.Session.{
  IsNew, init-IsNew, Request, run, run-IsValid, Restored, restored,
}

module _ (base : ℕ) (s : Allocator) (pos : 0 < base) (fits : base + va_reservation_size < 2 ^ 63)
    (new : init true (some base) true ≡ ok (some s)) where
  new-IsValid : IsValid base s
  new-IsValid = let made : IsNew base (some s) = rw new at (init-IsNew base pos fits) in made.0

  -- For an allocator that `init_default_allocator` has made over a reservation of user addresses, and
  -- after any sequence of calls, with whatever sizes and addresses: no call has stopped, every used
  -- block lies in the reservation, and no two used blocks overlap.
  pub run-AreApart : (rs : List Request) → Returns (AreApart base) (run rs s)
  run-AreApart rs =
      Returns-imp (IsValid base) (AreApart base) (run rs s) (run-IsValid rs s new-IsValid)
        (λ t h. live-AreApart h)

  -- Two sequences of calls to an allocator that `init_default_allocator` has made over a reservation
  -- of user addresses, if they end with the same used blocks, end with the same list of blocks, free
  -- ones included, the same size in use and the same nodes in the size tree: the order of the calls,
  -- and what was allocated and freed between, leaves no trace.
  pub run-Restored :
      (rs rs' : List Request) (t t' : Allocator)
      → run rs s ≡ ok t
      → run rs' s ≡ ok t'
      → SameUsed t'.pool.addr_list t.pool.addr_list
      → Restored t t'
  run-Restored rs rs' t t' ends ends' same =
      let valid : IsValid base t = rw ends at (run-IsValid rs s new-IsValid) in
      let valid' : IsValid base t' = rw ends' at (run-IsValid rs' s new-IsValid) in
      restored valid t' valid' same
