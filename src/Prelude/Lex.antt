-- ===== src/Prelude/Lex.antt =====
-- Python's order on tuples of numbers and on texts: lexicographic, a proper prefix first.
use Prim.Native.Nat.{ℕ, compare, Ordering}
use Prim.Native.Char.{code}
use Prim.Native.String.{String}
use mathlib.Core.Path.{◌≡◌, refl}
use mathlib.Core.List.{List, [], ◌∷◌}
use native.Mathlib.Omega.{arith}

-- The code points of a text, by which Python compares it. `String` has its own `[]` and `∷`.
abbrev pub codes : String → List ℕ
codes String.[] = []
codes (String.◌∷◌ c s) = code c ∷ codes s

-- The next component decides where this one is equal.
abbrev pub then_by : Ordering → Ordering → Ordering
then_by Ordering.lt next = Ordering.lt
then_by Ordering.eq next = next
then_by Ordering.gt next = Ordering.gt

abbrev pub swapped : Ordering → Ordering
swapped Ordering.lt = Ordering.gt
swapped Ordering.eq = Ordering.eq
swapped Ordering.gt = Ordering.lt

unfoldable pub compare_tuple : List ℕ → List ℕ → Ordering
compare_tuple [] [] = Ordering.eq
compare_tuple [] (y ∷ ys) = Ordering.lt
compare_tuple (x ∷ xs) [] = Ordering.gt
compare_tuple (x ∷ xs) (y ∷ ys) = then_by (compare x y) (compare_tuple xs ys)

swapped-compare : (x y : ℕ) → swapped (compare x y) ≡ compare y x
swapped-compare x y = ground arith

pub swapped-then_by : (a b : Ordering) → swapped (then_by a b) ≡ then_by (swapped a) (swapped b)
swapped-then_by Ordering.lt b = refl
swapped-then_by Ordering.eq b = refl
swapped-then_by Ordering.gt b = refl

-- Comparing the other way round gives the opposite answer.
pub swapped-compare_tuple : (xs ys : List ℕ) → swapped (compare_tuple xs ys) ≡ compare_tuple ys xs
unfolding compare_tuple
swapped-compare_tuple [] [] = refl
swapped-compare_tuple [] (y ∷ ys) = refl
swapped-compare_tuple (x ∷ xs) [] = refl
swapped-compare_tuple (x ∷ xs) (y ∷ ys) =
    rw (swapped-then_by, swapped-compare x y, swapped-compare_tuple xs ys)
