-- ===== src/Base/Outcome.antt =====
-- A step of the program either goes on with a value, or stops: a failed `CU_ASSERT` or `assert`,
-- or an access that C leaves undefined.
use mathlib.Core.Path.{◌≡◌, refl}

pub data Run {ℓ} (A : Type ℓ) : Type ℓ where
  ok : A → Run A
  stop : Run A

infixl 5 ◌>>=◌
abbrev pub ◌>>=◌ {ℓ κ} : {A : Type ℓ} {B : Type κ} → Run A → (A → Run B) → Run B
ok a >>= f = f a
stop >>= f = stop

-- Total correctness of a run: it does not stop, and its value satisfies `P`.
abbrev pub Returns {ℓ} : {A : Type ℓ} → (A → Type 0) → Run A → Type 0
Returns P (ok a) = P a
Returns P stop = ⊥

pub Returns-bind {ℓ κ} :
    {A : Type ℓ} {B : Type κ} (P : A → Type 0) (Q : B → Type 0) (m : Run A) (f : A → Run B)
    → Returns P m
    → ((a : A) → P a → Returns Q (f a))
    → Returns Q (m >>= f)
Returns-bind P Q (ok a) f h next = next a h
Returns-bind P Q stop f h next = absurd h

pub Returns-imp {ℓ} :
    {A : Type ℓ} (P Q : A → Type 0) (m : Run A) → Returns P m → ((a : A) → P a → Q a) → Returns Q m
Returns-imp P Q (ok a) h next = next a h
Returns-imp P Q stop h next = absurd h

-- The value that a run which does not stop comes to.
pub Returns-value {ℓ} :
    {A : Type ℓ} (P : A → Type 0) (m : Run A) → Returns P m → (a : A) × (m ≡ ok a) × P a
Returns-value P (ok a) h = (a, refl, h)
Returns-value P stop h = absurd h
