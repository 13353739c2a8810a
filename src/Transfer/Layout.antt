-- ===== src/Transfer/Layout.antt =====
-- awex/transfer/tensor_layout.py: the flat runs of a rectangular slice, and their fragments.
pub mod Strides
pub mod Cells
pub mod Ascending
pub mod Runs
pub mod Fragments
pub mod Static
pub mod Slicing
mod Tests
use mathlib.Core.List.{reverse}
use awex.Prelude.{
  ℕ, zero, suc, ◌+◌, ◌-◌, ◌*◌, ◌≡◌, refl, Bool, true, false, ◌&&◌, not, Option, none, some, List,
  [], ◌∷◌, ◌++◌, map, length, get_elem?, take, min, ltb, leb, ◌==◌, if◌then◌else◌,
}
use awex.Prelude.Int.{ℤ, pos, negsuc}
use awex.Prelude.Outcome.{Outcome, ok, err, ◌>>=◌, ◌>>◌, raise_if, or_raise}
use awex.Prelude.Indices.{concat_map, indices}

-- Python's `slice(start, stop, step)`, `None` where a field is left out.
pub record PySlice : Type 0 where
  pub start : Option ℤ
  pub stop : Option ℤ
  pub step : Option ℤ

-- The `ValueError`s of the file, and Python's `IndexError`.
pub data LayoutError : Type 0 where
  slice_count : LayoutError
  not_unit_stride : LayoutError
  empty_span : LayoutError
  not_covered : LayoutError
  no_spans : LayoutError
  not_contiguous : LayoutError
  mixed_spans : LayoutError
  index_error : LayoutError

-- A bound of a slice of step 1 in a dimension: counted from the end if negative, and clamped.
abbrev pub clamp : ℕ → ℕ → Option ℤ → ℕ
clamp missing dim none = missing
clamp missing dim (some (pos n)) = min n dim
clamp missing dim (some (negsuc n)) = dim - suc n

abbrev pub is_unit_step : Option ℤ → Bool
is_unit_step none = true
is_unit_step (some (pos n)) = n == 1
is_unit_step (some (negsuc n)) = false

unfoldable pub shape_numel : List ℕ → ℕ
shape_numel [] = 1
shape_numel (dim ∷ dims) = dim * shape_numel dims

-- An entry of `normalized`: start, stop, and whether the slice takes its whole dimension.
pub record Normalized : Type 0 where
  pub start : ℕ
  pub stop : ℕ
  pub is_full : Bool

-- `item.indices(dim)` for a step of 1, as it is put into `normalized`.
abbrev pub normalize : ℕ → PySlice → Normalized
normalize dim item =
    let start = clamp 0 dim item.start in
    let stop = clamp dim dim item.stop in
    record { start = start; stop = stop; is_full = (start == 0) && (stop == dim) }

abbrev pub append_entry : Normalized → Option (List Normalized) → Option (List Normalized)
append_entry entry none = none
append_entry entry (some entries) = some (entry ∷ entries)

-- The first loop of `_selected_flat_runs`: `none` is its early `return []`.
abbrev pub normalize_all : List ℕ → List PySlice → Outcome LayoutError (Option (List Normalized))
normalize_all (dim ∷ dims) (item ∷ items) =
    let entry = normalize dim item in
    raise_if (not (is_unit_step item.step)) not_unit_stride
    >> (let rest = normalize_all dims items in
        if leb entry.stop entry.start
        then ok none
        else (rest >>= λ others. ok (append_entry entry others)))
normalize_all _ _ = ok (some [])

-- The second loop: the last index of an entry that is not full.
abbrev pub last_partial : ℕ → Option ℕ → List Normalized → Option ℕ
last_partial index found [] = found
last_partial index found (entry ∷ entries) =
    last_partial (index + 1) (if entry.is_full then found else some index) entries

-- The loop over `reversed(shape)`, and the strides that it makes.
abbrev pub stride_loop : List ℕ → ℕ → List ℕ → List ℕ
stride_loop [] stride strides = strides
stride_loop (dim ∷ dims) stride strides = stride_loop dims (stride * dim) (strides ++ (stride ∷ []))

unfoldable pub row_strides : List ℕ → List ℕ
row_strides shape = reverse (stride_loop (reverse shape) 1 [])

-- `itertools.product`
abbrev pub product : List (List ℕ) → List (List ℕ)
product [] = [] ∷ []
product (r ∷ rs) = concat_map (λ i. map (λ prefix. i ∷ prefix) (product rs)) r

abbrev pub entry_range : Normalized → List ℕ
entry_range entry = indices entry.start (entry.stop - entry.start)

-- `sum(index * strides[dim] for dim, index in enumerate(prefix))`
abbrev pub prefix_start : List ℕ → List ℕ → ℕ
prefix_start (index ∷ prefix) (stride ∷ strides) = index * stride + prefix_start prefix strides
prefix_start _ _ = 0

-- The run of one prefix, as start and length, for the last entry that is not full and its stride.
abbrev pub prefix_run : List ℕ → Normalized → ℕ → List ℕ → ℕ × ℕ
prefix_run strides entry stride prefix =
    (prefix_start prefix strides + entry.start * stride, (entry.stop - entry.start) * stride)

-- The loop over the prefixes, where `entries[partial]` is the last entry that is not full.
abbrev pub runs_at : List ℕ → List Normalized → ℕ → Outcome LayoutError (List (ℕ × ℕ))
runs_at strides entries partial = or_raise (get_elem? entries partial) index_error >>= λ entry.
    or_raise (get_elem? strides partial) index_error >>= λ stride.
    ok (map (prefix_run strides entry stride) (product (map entry_range (take partial entries))))

abbrev pub runs_of : List ℕ → List Normalized → Option ℕ → Outcome LayoutError (List (ℕ × ℕ))
runs_of shape entries none = ok ((0, shape_numel shape) ∷ [])
runs_of shape entries (some partial) = runs_at (row_strides shape) entries partial

abbrev pub entry_runs : List ℕ → Option (List Normalized) → Outcome LayoutError (List (ℕ × ℕ))
entry_runs shape none = ok []
entry_runs shape (some entries) = runs_of shape entries (last_partial 0 none entries)

-- `_selected_flat_runs`
unfoldable pub selected_flat_runs : List ℕ → List PySlice → Outcome LayoutError (List (ℕ × ℕ))
selected_flat_runs shape slices =
    raise_if (not (length slices == length shape)) slice_count
    >> (normalize_all shape slices >>= entry_runs shape)

-- The loop that makes `span_bounds`.
abbrev pub span_bounds : ℕ → List ℕ → List (ℕ × ℕ)
span_bounds start [] = []
span_bounds start (numel ∷ numels) = (start, start + numel) ∷ span_bounds (start + numel) numels

-- A fragment: span index, span offset, length.
pub record Fragment : Type 0 where
  pub span_index : ℕ
  pub offset : ℕ
  pub numel : ℕ

-- A span index with `span_bounds[index:]`.
abbrev pub Cursor : Type 0
Cursor = ℕ × List (ℕ × ℕ)

-- `while span_bounds[span_index][1] <= run_start`
abbrev pub skip_spans : ℕ → List (ℕ × ℕ) → ℕ → Outcome LayoutError Cursor
skip_spans index [] run_start = err index_error
skip_spans index (bounds ∷ later) run_start =
    let rest = skip_spans (suc index) later run_start in
    if leb bounds.1 run_start then rest else ok (index, bounds ∷ later)

-- `while current < run_end`. A round that stays in its span has come to `run_end`, which ends the
-- loop.
abbrev pub cut_run : ℕ → List (ℕ × ℕ) → ℕ → ℕ → Outcome LayoutError (List Fragment × Cursor)
cut_run index [] current run_end =
    if ltb current run_end then err index_error else ok ([], (index, []))
cut_run index (bounds ∷ later) current run_end =
    let fragment_end = min run_end bounds.1 in
    let fragment : Fragment = record {
      span_index = index;
      offset = current - bounds.0;
      numel = fragment_end - current;
    } in
    let rest = cut_run (suc index) later fragment_end run_end in
    if ltb current run_end
    then (if (fragment_end == bounds.1) && ltb fragment_end run_end
        then (rest >>= λ r. ok (fragment ∷ r.0, r.1))
        else ok (fragment ∷ [], (index, bounds ∷ later)))
    else ok ([], (index, bounds ∷ later))

-- The loop over the runs.
abbrev pub fragment_loop : Cursor → List (ℕ × ℕ) → Outcome LayoutError (List Fragment)
fragment_loop cursor [] = ok []
fragment_loop cursor (run ∷ runs) = skip_spans cursor.0 cursor.1 run.0 >>= λ at.
    cut_run at.0 at.1 run.0 (run.0 + run.1) >>= λ cut.
    fragment_loop cut.1 runs >>= λ rest. ok (cut.0 ++ rest)

abbrev pub sum : List ℕ → ℕ
sum [] = 0
sum (n ∷ ns) = n + sum ns

abbrev pub any_zero : List ℕ → Bool
any_zero [] = false
any_zero (n ∷ ns) = let rest = any_zero ns in if n == 0 then true else rest

unfoldable pub slice_layout_fragments :
    List ℕ → List PySlice → List ℕ → Outcome LayoutError (List Fragment)
slice_layout_fragments shape slices span_numels =
    raise_if (any_zero span_numels) empty_span
    >> raise_if (not (sum span_numels == shape_numel shape)) not_covered
    >> (selected_flat_runs shape slices >>= fragment_loop (0, span_bounds 0 span_numels))
