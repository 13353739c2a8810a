-- ===== src/Prelude/Filter.antt =====
-- `[x for x in xs if p(x)]`, for a Boolean test.
use mathlib.Core.Path.{◌≡◌, refl, ap, fun_ext}
use mathlib.Core.Bool.{Bool, true, false, ◌&&◌}
use mathlib.Core.List.{List, [], ◌∷◌, ◌++◌}
use native.Mathlib.Omega.{arith}
use awex.Prelude.Tests.{if◌then◌else◌}
use awex.Prelude.Lists.{All}

module _ {ℓ} {A : Type ℓ} where
  abbrev pub filter : (A → Bool) → List A → List A
  filter p [] = []
  filter p (x ∷ xs) = let rest = filter p xs in if p x then x ∷ rest else rest

  pub filter-append :
      (p : A → Bool) (xs ys : List A) → filter p (xs ++ ys) ≡ filter p xs ++ filter p ys
  filter-append p [] ys = refl
  filter-append p (x ∷ xs) ys = ground (arith, filter-append p xs ys)

  -- Two filters may be made in either order.
  pub filter_comm : (p q : A → Bool) (xs : List A) → filter p (filter q xs) ≡ filter q (filter p xs)
  filter_comm p q [] = refl
  filter_comm p q (x ∷ xs) = ground (arith, filter_comm p q xs)

  pub filter_idem : (p : A → Bool) (xs : List A) → filter p (filter p xs) ≡ filter p xs
  filter_idem p [] = refl
  filter_idem p (x ∷ xs) = ground (arith, filter_idem p xs)

  pub filter-and :
      (p q : A → Bool) (xs : List A) → filter p (filter q xs) ≡ filter (λ x. q x && p x) xs
  filter-and p q [] = refl
  filter-and p q (x ∷ xs) = ground (arith, filter-and p q xs)

  -- Tests that agree on every element filter alike.
  pub filter-ext :
      (p q : A → Bool) → ((x : A) → p x ≡ q x) → (xs : List A) → filter p xs ≡ filter q xs
  filter-ext p q e xs = ap (λ (t : A → Bool). filter t xs) (fun_ext e)

  -- A test that gives one answer on the whole list keeps all of it or nothing.
  pub filter-const :
      (p : A → Bool) (b : Bool) (xs : List A)
      → All (λ x. p x ≡ b) xs
      → filter p xs ≡ (if b then xs else [])
  filter-const p true [] h = refl
  filter-const p false [] h = refl
  filter-const p true (x ∷ xs) h = rw (h.0, filter-const p true xs h.1)
  filter-const p false (x ∷ xs) h = rw (h.0, filter-const p false xs h.1)
