-- ===== src/Prelude/Outcome.antt =====
-- What a routine that may end the program returns: `error (1, 0, ...)` and `abort ()` do not
-- return, and the state at that point is lost with the process.
use mathlib.Core.Path.{◌≡◌, refl, ap}

-- The messages that `error` prints before it exits, and `abort`.
pub data Failure : Type 0 where
  invalid_interval invalid_argument invalid_size invalid_increment : Failure
  bad_insert bad_remove stack_too_small binary_file aborted : Failure

pub data Outcome {ℓ} (A : Type ℓ) : Type ℓ where
  ok : A → Outcome A
  exit : Failure → Outcome A

infixl 5 ◌>>=◌
abbrev pub ◌>>=◌ {ℓ κ} : {A : Type ℓ} {B : Type κ} → Outcome A → (A → Outcome B) → Outcome B
ok a >>= f = f a
exit e >>= f = exit e

-- The parts of a chain that returned.
pub bind-eq-ok {ℓ κ} :
    {A : Type ℓ} {B : Type κ} (m : Outcome A) (f : A → Outcome B) {b : B}
    → (m >>= f) ≡ ok b
    → (a : A) × (m ≡ ok a) × (f a ≡ ok b)
bind-eq-ok (ok a) f h = (a, refl, h)
bind-eq-ok (exit e) f h = cc

abbrev pub ok_or {ℓ} : {A : Type ℓ} → A → Outcome A → A
ok_or d (ok a) = a
ok_or d (exit e) = d

pub ok_injective {ℓ} : {A : Type ℓ} {a b : A} → ok a ≡ ok b → a ≡ b
ok_injective {a} h = ap (ok_or a) h
