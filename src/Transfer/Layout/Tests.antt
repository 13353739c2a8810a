-- ===== src/Transfer/Layout/Tests.antt =====
-- A tensor of shape 2 × 4 in spans of 3 and 5 elements, and its two middle columns.
use awex.Prelude.{ℕ, ◌+◌, ◌≡◌, refl, true, some, none, List, [], ◌∷◌, map, get_elem?, All, arith}
use awex.Prelude.Int.{pos, negsuc}
use awex.Prelude.Outcome.{ok, err}
use awex.Prelude.Indices.{concat_map}
use awex.Transfer.Layout.{
  PySlice, Fragment, shape_numel, row_strides, selected_flat_runs, slice_layout_fragments,
  slice_count, not_covered,
}
use awex.Transfer.Layout.Cells.{cells, run_indices}
use awex.Transfer.Layout.Ascending.{Ascend}
use awex.Transfer.Layout.Runs.{selected, selected_flat_runs-selected}
use awex.Transfer.Layout.Fragments.{fragment_indices, Fits}
use awex.Transfer.Layout.Static.{Span, StaticTensorLayout, new_layout, slice_layout}
use awex.Transfer.Layout.Slicing.{flat_elements, slice_layout_fragments-selected, new_layout-slice}

abbrev slice : ℕ → ℕ → PySlice
slice start stop = record { start = some (pos start); stop = some (pos stop); step = none }

-- `[:, 1:-1]`
abbrev columns : List PySlice
columns =
    record { start = none; stop = none; step = none }
    ∷ record { start = some (pos 1); stop = some (negsuc 0); step = some (pos 1) }
    ∷ []

abbrev dims : List ℕ
dims = 2 ∷ 4 ∷ []

abbrev part : List ℕ → Span ℕ
part elements = record {
  is_contiguous = true;
  dtype = "bfloat16";
  device = "cuda:0";
  elements = elements;
}

abbrev parts : List (Span ℕ)
parts = part (10 ∷ 11 ∷ 12 ∷ []) ∷ part (13 ∷ 14 ∷ 15 ∷ 16 ∷ 17 ∷ []) ∷ []

abbrev tensor : StaticTensorLayout ℕ
tensor = record { shape = dims; spans = parts }

runs_of_columns : selected_flat_runs dims columns ≡ ok ((1, 2) ∷ (5, 2) ∷ [])
unfolding selected_flat_runs row_strides shape_numel
runs_of_columns = refl

runs_of_all : selected_flat_runs dims (slice 0 2 ∷ slice 0 9 ∷ []) ≡ ok ((0, 8) ∷ [])
unfolding selected_flat_runs row_strides shape_numel
runs_of_all = refl

runs_of_nothing : selected_flat_runs dims (slice 1 1 ∷ slice 0 4 ∷ []) ≡ ok []
unfolding selected_flat_runs row_strides shape_numel
runs_of_nothing = refl

too_few_slices : selected_flat_runs dims (slice 0 1 ∷ []) ≡ err slice_count
unfolding selected_flat_runs row_strides shape_numel
too_few_slices = refl

selected-columns : selected dims columns ≡ 1 ∷ 2 ∷ 5 ∷ 6 ∷ []
unfolding selected cells shape_numel
selected-columns = refl

-- A run over the border of the spans is cut there.
cut_at_border :
    slice_layout_fragments dims (slice 0 1 ∷ slice 1 4 ∷ []) (3 ∷ 5 ∷ [])
    ≡ ok (
        record { span_index = 0; offset = 1; numel = 2 }
        ∷ record { span_index = 1; offset = 0; numel = 1 }
        ∷ [])
unfolding slice_layout_fragments selected_flat_runs row_strides shape_numel
cut_at_border = refl

short_spans : slice_layout_fragments dims columns (3 ∷ 4 ∷ []) ≡ err not_covered
unfolding slice_layout_fragments selected_flat_runs row_strides shape_numel
short_spans = refl

views_of_columns : slice_layout tensor columns ≡ ok ((11 ∷ 12 ∷ []) ∷ (15 ∷ 16 ∷ []) ∷ [])
unfolding slice_layout slice_layout_fragments selected_flat_runs row_strides shape_numel
views_of_columns = refl

tensor_made : new_layout dims parts ≡ ok tensor
unfolding new_layout shape_numel
tensor_made = refl

numel_of_dims : 3 + (5 + 0) ≡ shape_numel dims
unfolding shape_numel
numel_of_dims = refl

selected_flat_runs-selected_example :
    (runs : List (ℕ × ℕ)) × (selected_flat_runs dims columns ≡ ok runs)
    × (concat_map run_indices runs ≡ selected dims columns)
    × Ascend 0 (shape_numel dims) runs
selected_flat_runs-selected_example =
    selected_flat_runs-selected dims columns refl (refl, (refl, tt))

slice_layout_fragments-selected_example :
    (fragments : List Fragment) × (slice_layout_fragments dims columns (3 ∷ 5 ∷ []) ≡ ok fragments)
    × (concat_map (fragment_indices (3 ∷ 5 ∷ [])) fragments ≡ selected dims columns)
    × All (Fits (3 ∷ 5 ∷ [])) fragments
slice_layout_fragments-selected_example =
    slice_layout_fragments-selected dims columns (3 ∷ 5 ∷ []) refl (refl, (refl, tt))
      (omega arith, (omega arith, tt)) numel_of_dims

new_layout-slice_example :
    (views : List (List ℕ)) × (slice_layout tensor columns ≡ ok views)
    × (map some (concat_map (λ view. view) views)
        ≡ map (get_elem? (flat_elements parts)) (selected dims columns))
new_layout-slice_example =
    new_layout-slice dims parts tensor columns tensor_made (omega arith, (omega arith, tt)) refl
      (refl, (refl, tt))
