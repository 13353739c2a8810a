-- ===== src/Prelude/Update.antt =====
-- Lists after one write in bounds.
use Prim.Native.Nat.{ℕ, zero, suc, ◌<◌}
use mathlib.Core.Path.{◌≡◌, refl, ap}
use mathlib.Core.Logic.{◌≢◌}
use mathlib.Core.List.{List, [], ◌∷◌}
use mathlib.Core.Option.{some}
use native.Mathlib.Omega.{arith}
use awex.Prelude.Lists.{length, get_elem?, set}

module _ {A : Type 0} where
  pub get_elem-set :
      (xs : List A) (i : ℕ) (v : A) → i < length xs → get_elem? (set xs i v) i ≡ some v
  get_elem-set [] i v h = absurd (omega arith)
  get_elem-set (x ∷ xs) zero v h = refl
  get_elem-set (x ∷ xs) (suc i) v h = get_elem-set xs i v (omega arith)

  pub get_elem-set_other :
      (xs : List A) (i j : ℕ) (v : A) → j ≢ i → get_elem? (set xs i v) j ≡ get_elem? xs j
  get_elem-set_other [] i j v h = refl
  get_elem-set_other (x ∷ xs) zero zero v h = absurd (h refl)
  get_elem-set_other (x ∷ xs) zero (suc j) v h = refl
  get_elem-set_other (x ∷ xs) (suc i) zero v h = refl
  get_elem-set_other (x ∷ xs) (suc i) (suc j) v h = get_elem-set_other xs i j v (λ e. h (ap suc e))

  pub set-set : (xs : List A) (i : ℕ) (v w : A) → set (set xs i v) i w ≡ set xs i w
  set-set [] i v w = refl
  set-set (x ∷ xs) zero v w = refl
  set-set (x ∷ xs) (suc i) v w = ap (λ ys. x ∷ ys) (set-set xs i v w)

  pub length-set : (xs : List A) (i : ℕ) (v : A) → length (set xs i v) ≡ length xs
  length-set [] i v = refl
  length-set (x ∷ xs) zero v = refl
  length-set (x ∷ xs) (suc i) v = ap suc (length-set xs i v)

  -- A place in bounds has a value, which can be written back.
  pub get_elem-in_bounds :
      (xs : List A) (i : ℕ)
      → i < length xs
      → (v : A) × (get_elem? xs i ≡ some v) × (set xs i v ≡ xs)
  get_elem-in_bounds [] i h = absurd (omega arith)
  get_elem-in_bounds (x ∷ xs) zero h = (x, refl, refl)
  get_elem-in_bounds (x ∷ xs) (suc i) h =
      let (v, e, back) = get_elem-in_bounds xs i (omega arith) in (v, e, ap (λ ys. x ∷ ys) back)
