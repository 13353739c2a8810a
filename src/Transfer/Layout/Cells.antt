-- ===== src/Transfer/Layout/Cells.antt =====
-- The flat runs of a slice are, in order, the elements that the slice selects.
use mathlib.Core.List.{append-nil}
use awex.Prelude.{
  ℕ, zero, suc, ◌+◌, ◌-◌, ◌*◌, ◌≡◌, refl, ap, sym, ◌∙◌, true, some, List, [], ◌∷◌, map, get_elem?,
  take, arith, ◌==◌, ◌&&◌,
}
use awex.Prelude.Indices.{
  concat_map, concat_map-map, concat_map-concat_map, concat_map-ext, map-concat_map, indices,
  map-indices, concat_map-indices,
}
use awex.Transfer.Layout.{
  shape_numel, Normalized, row_strides, product, entry_range, prefix_start, prefix_run,
}
use awex.Transfer.Layout.Strides.{row_strides-cons, Fitting, AllFull, FullAfter}

-- The reference: the flat indices of the elements that a box selects, in row-major order.
unfoldable pub cells : List ℕ → List Normalized → List ℕ
cells (dim ∷ dims) (entry ∷ entries) =
    let rest = cells dims entries in
    concat_map (λ i. map (λ j. i * shape_numel dims + j) rest) (entry_range entry)
cells _ _ = 0 ∷ []

-- The flat indices of a run.
abbrev pub run_indices : ℕ × ℕ → List ℕ
run_indices run = indices run.0 run.1

-- A slice that is full from the second dimension on selects one run.
cells-block :
    (dims : List ℕ) (entry : Normalized) (entries : List Normalized) (dim : ℕ)
    → cells dims entries ≡ indices 0 (shape_numel dims)
    → cells (dim ∷ dims) (entry ∷ entries)
      ≡ indices (entry.start * shape_numel dims) ((entry.stop - entry.start) * shape_numel dims)
unfolding cells
cells-block dims entry entries dim whole =
    let size = shape_numel dims in
    rw whole (
      concat_map-ext (λ i. map (λ j. i * size + j) (indices 0 size)) (λ i. indices (i * size) size)
        (λ i.
          let e : i * size + 0 ≡ i * size = omega arith in
          map-indices (i * size) size 0 ∙ ap (λ s. indices s size) e)
        (entry_range entry)
      ∙ concat_map-indices size (entry.stop - entry.start) entry.start)

full_bounds :
    (entry : Normalized) (dim : ℕ)
    → entry.is_full ≡ ((entry.start == 0) && (entry.stop == dim))
    → entry.is_full ≡ true
    → (entry.start ≡ 0) × (entry.stop ≡ dim)
full_bounds entry dim e full = ground arith

pub cells-full :
    (dims : List ℕ) (entries : List Normalized)
    → Fitting dims entries
    → AllFull entries
    → cells dims entries ≡ indices 0 (shape_numel dims)
unfolding shape_numel cells
cells-full [] [] fit full = refl
cells-full (dim ∷ dims) (entry ∷ entries) (a, b, c, fit) (f, full) =
    let (e, e') = full_bounds entry dim c f in
    cells-block dims entry entries dim (cells-full dims entries fit full)
    ∙ (let z : (dim - 0) * shape_numel dims ≡ dim * shape_numel dims = grind arith in
        let z' : 0 * shape_numel dims ≡ 0 = omega arith in rw (e, e', z, z') refl)
cells-full [] (entry ∷ entries) fit full = absurd fit
cells-full (dim ∷ dims) [] fit full = absurd fit

-- The runs of the prefixes.
abbrev pub prefix_runs : List ℕ → List Normalized → ℕ → Normalized → ℕ → List (ℕ × ℕ)
prefix_runs strides entries p entry stride =
    map (prefix_run strides entry stride) (product (map entry_range (take p entries)))

module _ (entry : Normalized) (stride : ℕ) where
  abbrev length_of_run : ℕ
  length_of_run = (entry.stop - entry.start) * stride

  -- One more index before a prefix moves its run.
  run_indices-cons :
      (size i : ℕ) (strides prefix : List ℕ)
      → run_indices (prefix_run (size ∷ strides) entry stride (i ∷ prefix))
        ≡ map (λ j. i * size + j) (run_indices (prefix_run strides entry stride prefix))
  run_indices-cons size i strides prefix =
      let e : i * size + (prefix_start prefix strides + entry.start * stride)
          ≡ i * size + prefix_start prefix strides + entry.start * stride =
        omega arith in
      sym (
        map-indices (i * size) length_of_run (prefix_start prefix strides + entry.start * stride)
        ∙ ap (λ s. indices s length_of_run) e)

  prefix_runs-cons :
      (size : ℕ) (strides : List ℕ) (r : List ℕ) (rs : List (List ℕ))
      → concat_map run_indices (map (prefix_run (size ∷ strides) entry stride) (product (r ∷ rs)))
        ≡ concat_map
            (λ i.
              map
                (λ j. i * size + j)
                (concat_map run_indices (map (prefix_run strides entry stride) (product rs))))
            r
  prefix_runs-cons size strides r rs =
      let step = prefix_run (size ∷ strides) entry stride in
      let inner = prefix_run strides entry stride in
      concat_map-map run_indices step (product (r ∷ rs))
      ∙ concat_map-concat_map (λ x. run_indices (step x)) (λ i. map (λ q. i ∷ q) (product rs)) r
      ∙ concat_map-ext (λ i. concat_map (λ x. run_indices (step x)) (map (λ q. i ∷ q) (product rs)))
          (λ i. map (λ j. i * size + j) (concat_map run_indices (map inner (product rs))))
          (λ i.
            concat_map-map (λ x. run_indices (step x)) (λ q. i ∷ q) (product rs)
            ∙ concat_map-ext (λ q. run_indices (step (i ∷ q)))
                (λ q. map (λ j. i * size + j) (run_indices (inner q)))
                (run_indices-cons size i strides) (product rs)
            ∙ sym (map-concat_map (λ j. i * size + j) (λ q. run_indices (inner q)) (product rs))
            ∙ ap (map (λ j. i * size + j)) (sym (concat_map-map run_indices inner (product rs))))
          r

pub prefix_runs-cells :
    (p : ℕ) (dims : List ℕ) (entries : List Normalized) (entry : Normalized) (stride : ℕ)
    → Fitting dims entries
    → FullAfter p entries
    → get_elem? entries p ≡ some entry
    → get_elem? (row_strides dims) p ≡ some stride
    → concat_map run_indices (prefix_runs (row_strides dims) entries p entry stride)
      ≡ cells dims entries
unfolding cells
prefix_runs-cells zero (dim ∷ dims) (first ∷ entries) entry stride (a, b, c, fit) full found
      found' =
    let e : first ≡ entry = cc in
    let head : get_elem? (shape_numel dims ∷ row_strides dims) 0 ≡ some stride =
      ap (λ l. get_elem? l 0) (sym (row_strides-cons dim dims)) ∙ found' in
    let e' : shape_numel dims ≡ stride = cc in
    let z : 0 + first.start * shape_numel dims ≡ first.start * shape_numel dims = omega arith in
    rw (sym e, sym e', z, cells-block dims first entries dim (cells-full dims entries fit full))
      (append-nil _)
prefix_runs-cells (suc p) (dim ∷ dims) (first ∷ entries) entry stride (a, b, c, fit) full found
      found' =
    let tail : get_elem? (row_strides dims) p ≡ some stride =
      ap (λ l. get_elem? l (suc p)) (sym (row_strides-cons dim dims)) ∙ found' in
    rw (row_strides-cons dim dims) (
      prefix_runs-cons entry stride (shape_numel dims) (row_strides dims) (entry_range first)
        (map entry_range (take p entries))
      ∙ ap (λ l. concat_map (λ i. map (λ j. i * shape_numel dims + j) l) (entry_range first))
          (prefix_runs-cells p dims entries entry stride fit full found tail))
prefix_runs-cells p dims [] entry stride fit full found found' = absurd full
prefix_runs-cells p [] (first ∷ entries) entry stride fit full found found' = absurd fit
