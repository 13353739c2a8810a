-- ===== src/Transfer/Layout/Runs.antt =====
-- `_selected_flat_runs` as a whole.
use mathlib.Core.List.{append-nil}
use awex.Prelude.{
  ℕ, ◌+◌, ◌-◌, ◌≤◌, ◌≡◌, refl, sym, ◌∙◌, ◌⊎◌, inl, inr, true, Option, none, some, List, [], ◌∷◌,
  length, All, leb, arith, Bool-cases, leb→le, eq→==,
}
use awex.Prelude.Int.{ℤ, pos, negsuc}
use awex.Prelude.Outcome.{ok}
use awex.Prelude.Indices.{concat_map}
use awex.Transfer.Layout.{
  PySlice, clamp, is_unit_step, shape_numel, Normalized, normalize, normalize_all, entry_range,
  row_strides, selected_flat_runs,
}
use awex.Transfer.Layout.Strides.{Fitting, Fitting-pos, last_partial-cases, FullAfter-found}
use awex.Transfer.Layout.Cells.{prefix_runs, cells, run_indices, cells-full, prefix_runs-cells}
use awex.Transfer.Layout.Ascending.{Ascend, prefix_runs-Ascend}

-- Every slice has step 1.
abbrev pub AllUnit : List PySlice → Type 0
AllUnit = All (λ s. is_unit_step s.step ≡ true)

-- The slices' bounds.
abbrev pub box : List ℕ → List PySlice → List Normalized
box (dim ∷ dims) (item ∷ items) = normalize dim item ∷ box dims items
box _ _ = []

-- The flat indices that the slices select, in row-major order.
unfoldable pub selected : List ℕ → List PySlice → List ℕ
selected shape slices = cells shape (box shape slices)

clamp-le : (missing dim : ℕ) (bound : Option ℤ) → missing ≤ dim → clamp missing dim bound ≤ dim
clamp-le missing dim none h = h
clamp-le missing dim (some (pos n)) h = omega arith
clamp-le missing dim (some (negsuc n)) h = omega arith

concat_map-nil : (f : ℕ → List ℕ) (r : List ℕ) → ((i : ℕ) → f i ≡ []) → concat_map f r ≡ []
concat_map-nil f [] e = refl
concat_map-nil f (i ∷ r) e = rw (e i, concat_map-nil f r e) refl

-- Without an early return the box is what the loop makes; with one, nothing is selected.
normalize_all-cases :
    (dims : List ℕ) (items : List PySlice)
    → length items ≡ length dims
    → AllUnit items
    → ((normalize_all dims items ≡ ok none) × (cells dims (box dims items) ≡ []))
      ⊎ ((normalize_all dims items ≡ ok (some (box dims items))) × Fitting dims (box dims items))
unfolding cells
normalize_all-cases [] [] same unit = inr (refl, tt)
normalize_all-cases [] (item ∷ items) same unit = absurd (omega arith)
normalize_all-cases (dim ∷ dims) [] same unit = absurd (omega arith)
normalize_all-cases (dim ∷ dims) (item ∷ items) same (u, unit) =
    let entry = normalize dim item in
    let top = clamp-le dim dim item.stop (omega arith) in
    elim (Bool-cases (leb entry.stop entry.start)) [
      | inl empty ↦
          let e : entry.stop - entry.start ≡ 0 =
            ground (arith, leb→le entry.stop entry.start empty) in
          inl (rw (u, empty) refl, rw e refl)
      | inr nonempty ↦ elim (normalize_all-cases dims items (omega arith) unit) [
        | inl (e, none_left) ↦ inl (
          rw (u, nonempty, e) refl,
          concat_map-nil _ (entry_range entry) (λ i. rw none_left refl),
        )
        | inr (e, fit) ↦ inr (rw (u, nonempty, e) refl, (ground arith, top, refl, fit))
      ]
    ]

-- For unit-stride slices, one per dimension, the runs are found; they are not empty, follow one
-- another inside the tensor, and hold just the flat indices that the slices select, in row-major
-- order.
pub selected_flat_runs-selected :
    (shape : List ℕ) (slices : List PySlice)
    → length slices ≡ length shape
    → AllUnit slices
    → (runs : List (ℕ × ℕ)) × (selected_flat_runs shape slices ≡ ok runs)
      × (concat_map run_indices runs ≡ selected shape slices)
      × Ascend 0 (shape_numel shape) runs
unfolding selected_flat_runs selected
selected_flat_runs-selected shape slices same unit =
    let counted = eq→== (length slices) (length shape) same in
    let entries = box shape slices in
    elim (normalize_all-cases shape slices same unit) [
      | inl (e, nothing) ↦ ([], rw (counted, e) refl, rw nothing refl, omega arith)
      | inr (e, fit) ↦ elim (last_partial-cases 0 none entries) [
        | inl (full, l) ↦
            let some_cell = Fitting-pos shape entries fit in
            (
              (0, shape_numel shape) ∷ [],
              rw (counted, e, l) refl,
              append-nil _ ∙ sym (cells-full shape entries fit full),
              (omega arith, some_cell, omega arith),
            )
        | inr (p, l, after) ↦
            let (entry, stride, found, found') = FullAfter-found p shape entries fit after in
            let z : 0 + p ≡ p = omega arith in
            (
              prefix_runs (row_strides shape) entries p entry stride,
              rw (counted, e, l, z, found, found') refl,
              prefix_runs-cells p shape entries entry stride fit after found found',
              prefix_runs-Ascend p shape entries entry stride fit after found found',
            )
      ]
    ]
