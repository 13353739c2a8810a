-- ===== src/Prelude/Lists.antt =====
-- Lists measured and indexed by native numbers, and predicates on lists by recursion.
use Prim.Native.Nat.{ℕ, zero, suc, ◌+◌}
use mathlib.Core.Path.{◌≡◌, refl, ap}
use mathlib.Core.Logic.{◌⊎◌, inl, inr}
use mathlib.Core.List.{List, [], ◌∷◌, ◌++◌, map}
use mathlib.Core.Option.{Option, none, some}
use native.Mathlib.Omega.{arith}

module _ {ℓ} {A : Type ℓ} where
  abbrev pub length : List A → ℕ
  length [] = 0
  length (x ∷ xs) = suc (length xs)

  abbrev pub get_elem? : List A → ℕ → Option A
  get_elem? [] i = none
  get_elem? (x ∷ xs) zero = some x
  get_elem? (x ∷ xs) (suc i) = get_elem? xs i

  -- A write out of bounds changes nothing.
  abbrev pub set : List A → ℕ → A → List A
  set [] i v = []
  set (_ ∷ xs) zero v = v ∷ xs
  set (x ∷ xs) (suc i) v = x ∷ set xs i v

  abbrev pub replicate : ℕ → A → List A
  replicate zero a = []
  replicate (suc n) a = a ∷ replicate n a

  abbrev pub take : ℕ → List A → List A
  take (suc n) (x ∷ xs) = x ∷ take n xs
  take _ _ = []

  abbrev pub drop : ℕ → List A → List A
  drop (suc n) (x ∷ xs) = drop n xs
  drop _ xs = xs

  abbrev pub All {κ} : (A → Type κ) → List A → Type κ
  All P [] = Unit
  All P (x ∷ xs) = P x × All P xs

  pub length-append : (xs ys : List A) → length (xs ++ ys) ≡ length xs + length ys
  length-append [] ys = omega arith
  length-append (x ∷ xs) ys = omega (arith, length-append xs ys)

module _ {A : Type 0} where
  -- `x` stands in the list, with its place.
  abbrev pub In : A → List A → Type 0
  In x [] = ⊥
  In x (y ∷ ys) = (x ≡ y) ⊎ In x ys

  pub In-append_left : (x : A) (xs ys : List A) → In x xs → In x (xs ++ ys)
  In-append_left x [] ys h = elim h [ ]
  In-append_left x (y ∷ xs) ys (inl e) = inl e
  In-append_left x (y ∷ xs) ys (inr h) = inr (In-append_left x xs ys h)

  pub In-append_right : (x : A) (xs ys : List A) → In x ys → In x (xs ++ ys)
  In-append_right x [] ys h = h
  In-append_right x (y ∷ xs) ys h = inr (In-append_right x xs ys h)

  pub In-append_cases : (x : A) (xs ys : List A) → In x (xs ++ ys) → In x xs ⊎ In x ys
  In-append_cases x [] ys h = inr h
  In-append_cases x (y ∷ xs) ys (inl e) = inl (inl e)
  In-append_cases x (y ∷ xs) ys (inr h) = elim (In-append_cases x xs ys h) [
    | inl a ↦ inl (inr a)
    | inr b ↦ inr b
  ]

module _ {ℓ} {A : Type ℓ} where
  pub All-append {κ} :
      (Q : A → Type κ) (front back : List A) → All Q front → All Q back → All Q (front ++ back)
  All-append Q [] back _ q = q
  All-append Q (_ ∷ front) back (p, ps) q = (p, All-append Q front back ps q)

  pub length-map {κ} : {B : Type κ} (xs : List A) (f : A → B) → length (map f xs) ≡ length xs
  length-map [] f = refl
  length-map (x ∷ xs) f = ap suc (length-map xs f)

module _ {A : Type 0} where
  pub All-Unit : (xs : List A) → All (λ _. Unit {0}) xs
  All-Unit [] = tt
  All-Unit (x ∷ xs) = (tt, All-Unit xs)
