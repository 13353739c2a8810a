-- ===== src/Transfer/Layout/Strides.antt =====
-- What `_selected_flat_runs` works with: the row-major strides, the entries of the slices, and the
-- last entry that is not full.
use mathlib.Core.List.{reverse, reverse-cons, reverse-append}
use awex.Prelude.{
  ℕ, zero, suc, ◌+◌, ◌*◌, ◌≤◌, ◌<◌, ◌≡◌, refl, ap, ◌∙◌, ◌⊎◌, inl, inr, true, ◌&&◌, Option, some,
  List, [], ◌∷◌, ◌++◌, All, get_elem?, ◌==◌, arith, Bool-cases,
}
use awex.Transfer.Layout.{shape_numel, Normalized, last_partial, stride_loop, row_strides}

shape_numel-append : (xs ys : List ℕ) → shape_numel (xs ++ ys) ≡ shape_numel xs * shape_numel ys
unfolding shape_numel
shape_numel-append [] ys = omega arith
shape_numel-append (x ∷ xs) ys = grind (arith, shape_numel-append xs ys)

shape_numel-reverse : (xs : List ℕ) → shape_numel (reverse xs) ≡ shape_numel xs
unfolding shape_numel
shape_numel-reverse [] = refl
shape_numel-reverse (x ∷ xs) =
    rw (reverse-cons x xs, shape_numel-append (reverse xs) (x ∷ []), shape_numel-reverse xs)
      (grind arith)

-- The loop puts the product of what it has seen before the last dimension.
stride_loop-append :
    (xs : List ℕ) (dim stride : ℕ) (acc : List ℕ)
    → stride_loop (xs ++ (dim ∷ [])) stride acc
      ≡ stride_loop xs stride acc ++ ((stride * shape_numel xs) ∷ [])
unfolding shape_numel
stride_loop-append [] dim stride acc = let e : stride * 1 ≡ stride = omega arith in rw e refl
stride_loop-append (x ∷ xs) dim stride acc =
    let e : stride * (x * shape_numel xs) ≡ stride * x * shape_numel xs = grind arith in
    rw e (stride_loop-append xs dim (stride * x) (acc ++ (stride ∷ [])))

pub row_strides-cons :
    (dim : ℕ) (dims : List ℕ) → row_strides (dim ∷ dims) ≡ shape_numel dims ∷ row_strides dims
unfolding row_strides
row_strides-cons dim dims =
    let e : 1 * shape_numel (reverse dims) ≡ shape_numel dims =
      omega (arith, shape_numel-reverse dims) in
    rw
      (
        reverse-cons dim dims,
        stride_loop-append (reverse dims) dim 1 [],
        e,
        reverse-append (stride_loop (reverse dims) 1 []) (shape_numel dims ∷ []),
      )
      refl

-- The entries of a shape: each selects at least one index of its dimension.
abbrev pub Fitting : List ℕ → List Normalized → Type 0
Fitting [] [] = Unit
Fitting (dim ∷ dims) (entry ∷ entries) =
    (entry.start < entry.stop)
    × (entry.stop ≤ dim)
    × (entry.is_full ≡ ((entry.start == 0) && (entry.stop == dim)))
    × Fitting dims entries
Fitting _ _ = ⊥

abbrev pub AllFull : List Normalized → Type 0
AllFull = All (λ e. e.is_full ≡ true)

-- The entries after index `partial`, which is in range, are full.
abbrev pub FullAfter : ℕ → List Normalized → Type 0
FullAfter partial [] = ⊥
FullAfter zero (entry ∷ entries) = AllFull entries
FullAfter (suc partial) (entry ∷ entries) = FullAfter partial entries

pub Fitting-pos :
    (dims : List ℕ) (entries : List Normalized) → Fitting dims entries → 0 < shape_numel dims
unfolding shape_numel
Fitting-pos [] [] fit = omega arith
Fitting-pos (dim ∷ dims) (entry ∷ entries) (a, b, c, fit) =
    let ih = Fitting-pos dims entries fit in let p : 0 < dim = omega arith in grind arith
Fitting-pos [] (entry ∷ entries) fit = absurd fit
Fitting-pos (dim ∷ dims) [] fit = absurd fit

pub last_partial-cases :
    (index : ℕ) (found : Option ℕ) (entries : List Normalized)
    → (AllFull entries × (last_partial index found entries ≡ found))
      ⊎ ((p : ℕ) × (last_partial index found entries ≡ some (index + p)) × FullAfter p entries)
last_partial-cases index found [] = inl (tt, refl)
last_partial-cases index found (entry ∷ entries) = elim (Bool-cases entry.is_full) [
  | inl full ↦ elim (last_partial-cases (index + 1) found entries) [
    | inl (rest, e) ↦ inl ((full, rest), rw full e)
    | inr (p, e, rest) ↦
        let e' : index + 1 + p ≡ index + suc p = omega arith in
        inr (suc p, rw full (e ∙ ap some e'), rest)
  ]
  | inr open_entry ↦ elim (last_partial-cases (index + 1) (some index) entries) [
    | inl (rest, e) ↦
        let e' : index ≡ index + 0 = omega arith in inr (0, rw open_entry (e ∙ ap some e'), rest)
    | inr (p, e, rest) ↦
        let e' : index + 1 + p ≡ index + suc p = omega arith in
        inr (suc p, rw open_entry (e ∙ ap some e'), rest)
  ]
]

-- What the two look-ups of the code find.
pub FullAfter-found :
    (p : ℕ) (dims : List ℕ) (entries : List Normalized)
    → Fitting dims entries
    → FullAfter p entries
    → (entry : Normalized) × (stride : ℕ) × (get_elem? entries p ≡ some entry)
      × (get_elem? (row_strides dims) p ≡ some stride)
FullAfter-found zero (dim ∷ dims) (entry ∷ entries) fit full =
    (entry, shape_numel dims, refl, rw (row_strides-cons dim dims) refl)
FullAfter-found (suc p) (dim ∷ dims) (entry ∷ entries) fit full =
    let (e, s, found, found') = FullAfter-found p dims entries fit.3 full in
    (e, s, found, rw (row_strides-cons dim dims) found')
FullAfter-found p dims [] fit full = absurd full
FullAfter-found p [] (entry ∷ entries) fit full = absurd fit
