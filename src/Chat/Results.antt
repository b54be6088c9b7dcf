-- ===== src/Chat/Results.antt =====
-- How a call in the chat programs ends: with a result, by `exit`, or by leaving what C defines (an
-- array read or written out of bounds, a value of a function that returned none).
use linux_system_programming.Prelude.{ℕ, ◌≡◌, ◌≢◌, refl, Option, none, some}

pub data Outcome {ℓ} (A : Type ℓ) : Type ℓ where
  ok : A → Outcome A
  exited : ℕ → Outcome A
  fault : Outcome A
  out_of_fuel : Outcome A

infixl 5 ◌>>=◌
abbrev pub ◌>>=◌ {ℓ κ} : {A : Type ℓ} {B : Type κ} → Outcome A → (A → Outcome B) → Outcome B
ok a >>= f = f a
exited n >>= f = exited n
fault >>= f = fault
out_of_fuel >>= f = out_of_fuel

abbrev pub or_fault {ℓ} : {A : Type ℓ} → Option A → Outcome A
or_fault none = fault
or_fault (some a) = ok a

-- The result satisfies `P`, if there is one; and there was enough fuel.
abbrev pub Ensures {ℓ} : {A : Type ℓ} → (A → Type 0) → Outcome A → Type 0
Ensures P (ok a) = P a
Ensures P (exited n) = Unit
Ensures P fault = Unit
Ensures P out_of_fuel = ⊥

pub Ensures-bind {ℓ κ} :
    {A : Type ℓ} {B : Type κ} (P : A → Type 0) (Q : B → Type 0) (m : Outcome A) (f : A → Outcome B)
    → Ensures P m
    → ((a : A) → P a → Ensures Q (f a))
    → Ensures Q (m >>= f)
Ensures-bind P Q (ok a) f h g = g a h
Ensures-bind P Q (exited n) f h g = tt
Ensures-bind P Q fault f h g = tt
Ensures-bind P Q out_of_fuel f h g = h

pub Ensures-intro {ℓ} :
    {A : Type ℓ} (P : A → Type 0) (m : Outcome A)
    → ((a : A) → m ≡ ok a → P a)
    → m ≢ out_of_fuel
    → Ensures P m
Ensures-intro P (ok a) h ne = h a refl
Ensures-intro P (exited n) h ne = tt
Ensures-intro P fault h ne = tt
Ensures-intro P out_of_fuel h ne = ne refl
