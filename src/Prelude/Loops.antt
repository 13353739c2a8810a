-- ===== src/Prelude/Loops.antt =====
-- Loops that extend a list: how the result of `flat_map` follows from that of its body.
use mathlib.Core.Path.{◌≡◌, refl, ap, ◌∙◌}
use mathlib.Core.Logic.{inl, inr}
use mathlib.Core.Bool.{Bool, true, false, ◌&&◌}
use mathlib.Core.List.{List, [], ◌∷◌, ◌++◌}
use Prim.Native.Nat.{ℕ, ◌+◌, ◌*◌}
use native.Mathlib.Omega.{arith}
use awex.Prelude.Tests.{if◌then◌else◌, Bool-cases}
use awex.Prelude.Lists.{All, All-append}
use awex.Prelude.Filter.{filter, filter-append}
use awex.Prelude.Outcome
use awex.Prelude.Outcome.{Outcome, ok, err, bind-eq-ok, ◌>>=◌}

module _ {ℓ} {A : Type ℓ} where
  abbrev pub count : (A → Bool) → List A → ℕ
  count p [] = 0
  count p (x ∷ xs) = (if p x then 1 else 0) + count p xs

  pub count-append : (p : A → Bool) (xs ys : List A) → count p (xs ++ ys) ≡ count p xs + count p ys
  count-append p [] ys = omega arith
  count-append p (x ∷ xs) ys = omega (arith, count-append p xs ys)

  pub count-and :
      (b : Bool) (q : A → Bool) (xs : List A)
      → count (λ x. b && q x) xs ≡ (if b then count q xs else 0)
  count-and true q [] = refl
  count-and false q [] = refl
  count-and true q (x ∷ xs) = omega (arith, count-and true q xs)
  count-and false q (x ∷ xs) = omega (arith, count-and false q xs)

module _ {E A B : Type 0} (f : A → Outcome E (List B)) where
  -- The first round and the others, where the loop returns.
  pub flat_map-cons :
      (x : A) (xs : List A) (zs : List B)
      → Outcome.flat_map f (x ∷ xs) ≡ ok zs
      → (ys : List B) × (us : List B) × (f x ≡ ok ys)
        × (Outcome.flat_map f xs ≡ ok us)
        × (zs ≡ ys ++ us)
  flat_map-cons x xs zs h =
      let (ys, e, rest) = bind-eq-ok (f x) _ h in
      let (us, e', last) = bind-eq-ok (Outcome.flat_map f xs) _ rest in (ys, us, e, e', cc)

  -- Where the body returns at most what passes of its former result, so does the loop.
  pub flat_map-filter :
      (g : A → Outcome E (List B)) (p : B → Bool)
      → ((x : A) (ys : List B) → f x ≡ ok ys → g x ≡ ok (filter p ys))
      → (xs : List A) (zs : List B) → Outcome.flat_map f xs ≡ ok zs
      → Outcome.flat_map g xs ≡ ok (filter p zs)
  flat_map-filter g p step [] zs h = let e : zs ≡ [] = ground arith in rw e
  flat_map-filter g p step (x ∷ xs) zs h =
      let (ys, us, e, e', last) = flat_map-cons x xs zs h in
      rw (last, step x ys e, flat_map-filter g p step xs us e', filter-append p ys us)

  -- A loop returns where its body returns, and its results have what the body's have.
  pub flat_map_total :
      (P : A → Type 0) (Q : B → Type 0)
      → ((x : A) → P x → (ys : List B) × (f x ≡ ok ys) × All Q ys)
      → (xs : List A) → All P xs
      → (zs : List B) × (Outcome.flat_map f xs ≡ ok zs) × All Q zs
  flat_map_total P Q step [] all = ([], refl, tt)
  flat_map_total P Q step (x ∷ xs) all =
      let (ys, e, qs) = step x all.0 in
      let (zs, e', qs') = flat_map_total P Q step xs all.1 in
      (ys ++ zs, rw (e, e'), All-append Q ys zs qs qs')

  -- Dropping inputs whose results all fail the test drops just those results.
  pub flat_map-filter_inputs :
      (q : A → Bool) (p : B → Bool)
      → ((x : A) (ys : List B) → f x ≡ ok ys → filter p ys ≡ (if q x then ys else []))
      → (xs : List A) (zs : List B) → Outcome.flat_map f xs ≡ ok zs
      → Outcome.flat_map f (filter q xs) ≡ ok (filter p zs)
  flat_map-filter_inputs q p step [] zs h = let e : zs ≡ [] = ground arith in rw e
  flat_map-filter_inputs q p step (x ∷ xs) zs h =
      let (ys, us, e, e', last) = flat_map-cons x xs zs h in
      let ih = flat_map-filter_inputs q p step xs us e' in
      elim (Bool-cases (q x)) [
        | inl t ↦
            let s : filter p ys ≡ ys = step x ys e ∙ ap (λ b. if b then ys else []) t in
            rw (t, last, e, ih, filter-append p ys us, s)
        | inr t ↦
            let s : filter p ys ≡ [] = step x ys e ∙ ap (λ b. if b then ys else []) t in
            rw (t, last, ih, filter-append p ys us, s)
      ]

  -- What holds of the results of every round holds of the whole result.
  pub All-flat_map :
      (P : A → Type 0) (Q : B → Type 0)
      → ((x : A) (ys : List B) → P x → f x ≡ ok ys → All Q ys)
      → (xs : List A) (zs : List B) → All P xs
      → Outcome.flat_map f xs ≡ ok zs
      → All Q zs
  All-flat_map P Q step [] zs all h = let e : zs ≡ [] = ground arith in rw e tt
  All-flat_map P Q step (x ∷ xs) zs all h =
      let (ys, us, e, e', last) = flat_map-cons x xs zs h in
      rw last (All-append Q ys us (step x ys all.0 e) (All-flat_map P Q step xs us all.1 e'))

  -- In a loop whose body returns `k` passing results for an input that passes `q`, and none for
  -- another, the results that pass are `k` times as many as the inputs that do.
  pub count-flat_map :
      (P : A → Type 0) (p : B → Bool) (q : A → Bool) (k : ℕ)
      → ((x : A) (ys : List B) → P x → f x ≡ ok ys → count p ys ≡ (if q x then k else 0))
      → (xs : List A) (zs : List B) → All P xs
      → Outcome.flat_map f xs ≡ ok zs
      → count p zs ≡ count q xs * k
  count-flat_map P p q k step [] zs all h = let e : zs ≡ [] = ground arith in rw e (omega arith)
  count-flat_map P p q k step (x ∷ xs) zs all h =
      let (ys, us, e, e', last) = flat_map-cons x xs zs h in
      rw (last, count-append p ys us)
        (ground (arith, step x ys all.0 e, count-flat_map P p q k step xs us all.1 e'))
