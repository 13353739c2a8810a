-- ===== src/Prelude/Sort.antt =====
-- Python's `list.sort(key=…)`. The sort is stable, so its result is the same for every stable
-- algorithm: here elements are put in from the right, each before those that are not smaller.
use mathlib.Core.Path.{◌≡◌}
use mathlib.Core.Logic.{inl, inr}
use mathlib.Core.Bool.{Bool, true, false}
use mathlib.Core.List.{List, [], ◌∷◌, Perm}
use mathlib.Core.List.Perm
use native.Mathlib.Omega.{arith}
use awex.Prelude.Tests.{if◌then◌else◌, Bool-cases}

module _ {A : Type 0} (le : A → A → Bool) where
  abbrev pub insert_sorted : A → List A → List A
  insert_sorted x [] = x ∷ []
  insert_sorted x (y ∷ ys) =
      let rest = insert_sorted x ys in if le x y then x ∷ y ∷ ys else y ∷ rest

  unfoldable pub sort : List A → List A
  sort [] = []
  sort (x ∷ xs) = insert_sorted x (sort xs)

  -- Every element is at most the one after it.
  abbrev pub IsSorted : List A → Type 0
  IsSorted [] = Unit
  IsSorted (x ∷ []) = Unit
  IsSorted (x ∷ y ∷ ys) = (le x y ≡ true) × IsSorted (y ∷ ys)

  insert_sorted-perm : (x : A) (ys : List A) → Perm (insert_sorted x ys) (x ∷ ys)
  insert_sorted-perm x [] = Perm.refl (x ∷ [])
  insert_sorted-perm x (y ∷ ys) = elim (Bool-cases (le x y)) [
    | inl e ↦ rw e (Perm.refl (x ∷ y ∷ ys))
    | inr e ↦ rw e (Perm.trans (Perm.cons y (insert_sorted-perm x ys)) (Perm.swap x y ys))
  ]

  pub sort-perm : (xs : List A) → Perm (sort xs) xs
  unfolding sort
  sort-perm [] = Perm.refl []
  sort-perm (x ∷ xs) = Perm.trans (insert_sorted-perm x (sort xs)) (Perm.cons x (sort-perm xs))

  module _ (total : (x y : A) → le x y ≡ false → le y x ≡ true) where
    insert_sorted-IsSorted : (x : A) (ys : List A) → IsSorted ys → IsSorted (insert_sorted x ys)
    insert_sorted-IsSorted x [] h = tt
    insert_sorted-IsSorted x (y ∷ []) h = ground (arith, total x y)
    insert_sorted-IsSorted x (y ∷ z ∷ zs) h =
        ground (arith, total x y, insert_sorted-IsSorted x (z ∷ zs) h.1)

    pub sort-IsSorted : (xs : List A) → IsSorted (sort xs)
    unfolding sort
    sort-IsSorted [] = tt
    sort-IsSorted (x ∷ xs) = insert_sorted-IsSorted x (sort xs) (sort-IsSorted xs)
