-- ===== src/Base/Outcome.antt =====
-- What a run of C++ code yields: a value, or a fault that the language leaves undefined or that
-- ends the process (a division by zero, a read through an end iterator or a null pointer, an
-- access out of bounds, a use of freed memory, a read of memory never written, a signed overflow, a
-- wait that nothing ends, an exception that nothing catches).
use mathlib.Core.Path.{◌≡◌, refl}
use mathlib.Core.Logic.{◌⊎◌, inl, inr}
use mathlib.Core.Option.{Option, none, some}

pub data Fault : Type 0 where
  div_by_zero end_iterator null_pointer out_of_bounds use_after_free uncaught uninitialised overflow
        blocked :
      Fault

pub data Outcome {ℓ} (A : Type ℓ) : Type ℓ where
  ok : A → Outcome A
  fault : Fault → Outcome A

-- The pair behind an iterator or a pointer that must be valid.
abbrev pub deref {ℓ} : {A : Type ℓ} → Fault → Option A → Outcome A
deref e none = fault e
deref e (some a) = ok a

infixl 5 ◌>>=◌
abbrev pub ◌>>=◌ {ℓ κ} : {A : Type ℓ} {B : Type κ} → Outcome A → (A → Outcome B) → Outcome B
fault e >>= next = fault e
ok x >>= next = next x

pub ok-injective {ℓ} : {A : Type ℓ} {a b : A} → ok a ≡ ok b → a ≡ b
ok-injective h = cc

-- Inversion of a bind that succeeds.
pub >>=-eq-ok {ℓ κ} :
    {A : Type ℓ} {B : Type κ} (run : Outcome A) (next : A → Outcome B) {b : B}
    → (run >>= next) ≡ ok b
    → (x : A) × (run ≡ ok x) × (next x ≡ ok b)
>>=-eq-ok (fault e) next h = cc
>>=-eq-ok (ok x) next h = (x, refl, h)

pub deref-eq-ok {ℓ} :
    {A : Type ℓ} {a : A} (e : Fault) (o : Option A) → deref e o ≡ ok a → o ≡ some a
deref-eq-ok e none h = cc
deref-eq-ok e (some b) h = cc

pub Outcome-cases {ℓ} :
    {A : Type ℓ} (run : Outcome A) → ((a : A) × (run ≡ ok a)) ⊎ ((e : Fault) × (run ≡ fault e))
Outcome-cases (ok a) = inl (a, refl)
Outcome-cases (fault e) = inr (e, refl)
