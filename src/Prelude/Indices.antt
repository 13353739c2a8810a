-- ===== src/Prelude/Indices.antt =====
-- Runs of consecutive numbers, and lists joined from what a function gives for each element.
use Prim.Native.Nat.{ℕ, zero, suc, ◌+◌, ◌*◌}
use mathlib.Core.Path.{◌≡◌, refl, ap, sym, ◌∙◌}
use mathlib.Core.List.{List, [], ◌∷◌, ◌++◌, map, map-append, append_assoc}
use native.Mathlib.Omega.{arith}
use awex.Prelude.Range.{range_from}

module _ {A B : Type 0} where
  -- `[y for x in xs for y in f(x)]`
  abbrev pub concat_map : (A → List B) → List A → List B
  concat_map f [] = []
  concat_map f (x ∷ xs) = f x ++ concat_map f xs

  pub concat_map-append :
      (f : A → List B) (xs ys : List A)
      → concat_map f (xs ++ ys) ≡ concat_map f xs ++ concat_map f ys
  concat_map-append f [] ys = refl
  concat_map-append f (x ∷ xs) ys =
      rw (concat_map-append f xs ys) (sym (append_assoc (f x) (concat_map f xs) (concat_map f ys)))

module _ {A B C : Type 0} where
  pub concat_map-map :
      (f : B → List C) (g : A → B) (xs : List A)
      → concat_map f (map g xs) ≡ concat_map (λ x. f (g x)) xs
  concat_map-map f g [] = refl
  concat_map-map f g (x ∷ xs) = ap (λ ys. f (g x) ++ ys) (concat_map-map f g xs)

  pub map-concat_map :
      (g : B → C) (f : A → List B) (xs : List A)
      → map g (concat_map f xs) ≡ concat_map (λ x. map g (f x)) xs
  map-concat_map g f [] = refl
  map-concat_map g f (x ∷ xs) = rw (map-append g (f x) (concat_map f xs), map-concat_map g f xs)

  pub concat_map-concat_map :
      (g : B → List C) (f : A → List B) (xs : List A)
      → concat_map g (concat_map f xs) ≡ concat_map (λ x. concat_map g (f x)) xs
  concat_map-concat_map g f [] = refl
  concat_map-concat_map g f (x ∷ xs) =
      rw (concat_map-append g (f x) (concat_map f xs), concat_map-concat_map g f xs)

module _ {A B : Type 0} where
  pub concat_map-ext :
      (f g : A → List B) → ((x : A) → f x ≡ g x) → (xs : List A) → concat_map f xs ≡ concat_map g xs
  concat_map-ext f g e [] = refl
  concat_map-ext f g e (x ∷ xs) = rw (e x, concat_map-ext f g e xs)

-- The `n` numbers from `start` on.
abbrev pub indices : ℕ → ℕ → List ℕ
indices start n = range_from n start 1

pub indices-append :
    (n m start : ℕ) → indices start (n + m) ≡ indices start n ++ indices (start + n) m
indices-append zero m start =
    let e : start + 0 ≡ start = omega arith in let e' : 0 + m ≡ m = omega arith in rw e (rw e' refl)
indices-append (suc n) m start =
    let e : start + 1 + n ≡ start + suc n = omega arith in
    let e' : suc n + m ≡ suc (n + m) = omega arith in
    rw (e', sym e, indices-append n m (start + 1)) refl

pub map-indices : (k n start : ℕ) → map (λ i. k + i) (indices start n) ≡ indices (k + start) n
map-indices k zero start = refl
map-indices k (suc n) start =
    let e : k + (start + 1) ≡ k + start + 1 = omega arith in
    ap (λ l. (k + start) ∷ l) (map-indices k n (start + 1) ∙ ap (λ s. indices s n) e)

-- Consecutive blocks of one length make one run.
pub concat_map-indices :
    (size n start : ℕ)
    → concat_map (λ i. indices (i * size) size) (indices start n)
      ≡ indices (start * size) (n * size)
concat_map-indices size zero start = let e : 0 * size ≡ 0 = omega arith in rw e refl
concat_map-indices size (suc n) start =
    let e : (start + 1) * size ≡ start * size + size = grind arith in
    let e' : suc n * size ≡ size + n * size = grind arith in
    rw (concat_map-indices size n (start + 1), e, e')
      (sym (indices-append size (n * size) (start * size)))
