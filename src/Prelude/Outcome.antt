-- ===== src/Prelude/Outcome.antt =====
-- What a call returns, or the exception that it raises.
use mathlib.Core.Path.{◌≡◌, refl}
use mathlib.Core.Bool.{Bool, true, false}
use mathlib.Core.Option.{Option, none, some}
use mathlib.Core.Logic.{◌⊎◌, inl, inr}
use mathlib.Core.List.{List, [], ◌∷◌, ◌++◌}

pub data Outcome {ℓ} (E : Type 0) (A : Type ℓ) : Type ℓ where
  ok : A → Outcome E A
  err : E → Outcome E A

infixl 5 ◌>>=◌ ◌>>◌
abbrev pub ◌>>=◌ {ℓ κ} :
    {E : Type 0} {A : Type ℓ} {B : Type κ} → Outcome E A → (A → Outcome E B) → Outcome E B
err raised >>= next = err raised
ok value >>= next = next value

abbrev pub ◌>>◌ {ℓ} : {E : Type 0} {B : Type ℓ} → Outcome E (Unit {0}) → Outcome E B → Outcome E B
check >> next = check >>= (λ _. next)

-- `if c: raise e`
abbrev pub raise_if : {E : Type 0} → Bool → E → Outcome E (Unit {0})
raise_if true e = err e
raise_if false e = ok tt

-- `assert c`
abbrev pub require : {E : Type 0} → Bool → E → Outcome E (Unit {0})
require true e = ok tt
require false e = err e

abbrev pub or_raise {ℓ} : {E : Type 0} {A : Type ℓ} → Option A → E → Outcome E A
or_raise none e = err e
or_raise (some a) e = ok a

-- A loop that extends a list by what its body returns, and stops at the first exception.
abbrev pub flat_map {ℓ κ} :
    {E : Type 0} {A : Type ℓ} {B : Type κ} → (A → Outcome E (List B)) → List A → Outcome E (List B)
flat_map f [] = ok []
flat_map f (x ∷ xs) = f x >>= λ ys. flat_map f xs >>= λ zs. ok (ys ++ zs)

-- A call that goes on after a step, and returns, had a value from that step.
pub bind-eq-ok {ℓ κ} :
    {E : Type 0} {A : Type ℓ} {B : Type κ} (step : Outcome E A) (next : A → Outcome E B)
    → {result : B} → (step >>= next) ≡ ok result
    → (value : A) × (step ≡ ok value) × (next value ≡ ok result)
bind-eq-ok (err raised) next returned = cc
bind-eq-ok (ok value) next returned = (value, refl, returned)

pub ok-injective {ℓ} :
    {E : Type 0} {A : Type ℓ} {a b : A} → ◌≡◌ {A = Outcome E A} (ok a) (ok b) → b ≡ a
ok-injective h = cc

-- A passed `assert`, and an `if` that did not raise.
pub require-eq-ok {ℓ} :
    {E : Type 0} {B : Type ℓ} (c : Bool) (e : E) (k : Outcome E B) {b : B}
    → (require c e >> k) ≡ ok b
    → (c ≡ true) × (k ≡ ok b)
require-eq-ok true e k h = (refl, h)
require-eq-ok false e k h = cc

pub raise_if-eq-ok {ℓ} :
    {E : Type 0} {B : Type ℓ} (c : Bool) (e : E) (k : Outcome E B) {b : B}
    → (raise_if c e >> k) ≡ ok b
    → (c ≡ false) × (k ≡ ok b)
raise_if-eq-ok true e k h = cc
raise_if-eq-ok false e k h = (refl, h)

pub or_raise-eq-ok {ℓ} :
    {E : Type 0} {A : Type ℓ} (o : Option A) (e : E) {a : A} → or_raise o e ≡ ok a → o ≡ some a
or_raise-eq-ok none e h = cc
or_raise-eq-ok (some a) e h = cc

pub Outcome-cases {ℓ} :
    {E : Type 0} {A : Type ℓ} (o : Outcome E A) → ((a : A) × (o ≡ ok a)) ⊎ ((e : E) × (o ≡ err e))
Outcome-cases (ok a) = inl (a, refl)
Outcome-cases (err e) = inr (e, refl)
