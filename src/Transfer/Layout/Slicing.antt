-- ===== src/Transfer/Layout/Slicing.antt =====
-- What a slice of a layout gives: just the elements that the slices select.
use awex.Prelude.{
  ℕ, zero, suc, ◌+◌, ◌≤◌, ◌<◌, ◌≡◌, refl, ap, sym, ◌∙◌, some, true, false, List, [], ◌∷◌, ◌++◌, map,
  map-append, All, length, get_elem?, take, drop, arith, ◌==◌, leb, eq→==, ==→eq,
}
use awex.Prelude.Outcome.{ok, bind-eq-ok, require-eq-ok, ok-injective}
use awex.Prelude.Indices.{concat_map, indices}
use awex.Transfer.Layout.{PySlice, Fragment, shape_numel, sum, any_zero, slice_layout_fragments}
use awex.Transfer.Layout.Runs.{AllUnit, selected, selected_flat_runs-selected}
use awex.Transfer.Layout.Fragments.{
  AllPos, span_start, fragment_indices, Fits, fragment_loop-covers,
}
use awex.Transfer.Layout.Static.{
  Span, StaticTensorLayout, span_numels, check_spans, new_layout, view_fragment, view_fragments,
  slice_layout,
}

any_zero-AllPos : (ns : List ℕ) → AllPos ns → any_zero ns ≡ false
any_zero-AllPos [] h = refl
any_zero-AllPos (n ∷ ns) (p, h) =
    let e : (n == 0) ≡ false = ground arith in rw (e, any_zero-AllPos ns h) refl

-- For unit-stride slices, one per dimension, and non-empty spans that cover the shape, the
-- fragments are found; none is empty, each lies in its span, and in order they are the flat
-- indices that the slices select.
pub slice_layout_fragments-selected :
    (shape : List ℕ) (slices : List PySlice) (spans : List ℕ)
    → length slices ≡ length shape
    → AllUnit slices
    → AllPos spans
    → sum spans ≡ shape_numel shape
    → (fragments : List Fragment) × (slice_layout_fragments shape slices spans ≡ ok fragments)
      × (concat_map (fragment_indices spans) fragments ≡ selected shape slices)
      × All (Fits spans) fragments
unfolding slice_layout_fragments
slice_layout_fragments-selected shape slices spans same unit positive covers =
    let (runs, e, cells, up) = selected_flat_runs-selected shape slices same unit in
    let (fs, e', covered, fit) =
      fragment_loop-covers spans 0 0 spans 0 (shape_numel shape) runs (refl, refl) (omega arith)
        (omega arith) positive up in
    (fs, rw (any_zero-AllPos spans positive, eq→== _ _ covers, e, e') refl, covered ∙ cells, fit)

module _ {A : Type 0} where
  -- All elements of the tensor, in row-major order.
  abbrev pub flat_elements : List (Span A) → List A
  flat_elements = concat_map (λ span. span.elements)

  get_elem-append_left :
      (xs ys : List A) (i : ℕ) → i < length xs → get_elem? (xs ++ ys) i ≡ get_elem? xs i
  get_elem-append_left [] ys i h = absurd (omega arith)
  get_elem-append_left (x ∷ xs) ys zero h = refl
  get_elem-append_left (x ∷ xs) ys (suc i) h = get_elem-append_left xs ys i (omega arith)

  get_elem-append_right :
      (xs ys : List A) (i : ℕ) → get_elem? (xs ++ ys) (length xs + i) ≡ get_elem? ys i
  get_elem-append_right [] ys i = ap (get_elem? ys) (omega arith)
  get_elem-append_right (x ∷ xs) ys i =
      let e : suc (length xs) + i ≡ suc (length xs + i) = omega arith in
      rw e (get_elem-append_right xs ys i)

  map_get-cons :
      (x : A) (xs : List A) (n start : ℕ)
      → map (get_elem? (x ∷ xs)) (indices (suc start) n) ≡ map (get_elem? xs) (indices start n)
  map_get-cons x xs zero start = refl
  map_get-cons x xs (suc n) start =
      let e : suc start + 1 ≡ suc (start + 1) = omega arith in
      rw (e, map_get-cons x xs n (start + 1)) refl

  -- A view in bounds holds the elements at its indices.
  view_indices :
      (xs : List A) (offset n : ℕ)
      → offset + n ≤ length xs
      → map some (take n (drop offset xs)) ≡ map (get_elem? xs) (indices offset n)
  view_indices xs zero zero h = refl
  view_indices [] zero (suc n) h = absurd (omega arith)
  view_indices (x ∷ xs) zero (suc n) h =
      rw (map_get-cons x xs n 0, view_indices xs zero n (omega arith)) refl
  view_indices [] (suc offset) zero h = absurd (omega arith)
  view_indices [] (suc offset) (suc n) h = absurd (omega arith)
  view_indices (x ∷ xs) (suc offset) n h =
      view_indices xs offset n (omega arith) ∙ sym (map_get-cons x xs n offset)

  -- Two lists that agree from some place on agree on a run of places.
  map_get-ext :
      (xs ys : List A) (size shift : ℕ)
      → ((i : ℕ) → i < size → get_elem? ys (shift + i) ≡ get_elem? xs i)
      → (n start : ℕ) → start + n ≤ size
      → map (get_elem? ys) (indices (shift + start) n) ≡ map (get_elem? xs) (indices start n)
  map_get-ext xs ys size shift agree zero start h = refl
  map_get-ext xs ys size shift agree (suc n) start h =
      let e : shift + start + 1 ≡ shift + (start + 1) = omega arith in
      rw
        (
          e,
          agree start (omega arith),
          map_get-ext xs ys size shift agree n (start + 1) (omega arith),
        )
        refl

  -- The span at an index, and where its elements stand in the tensor.
  record Located (spans : List (Span A)) (k n : ℕ) : Type 0 where
    span : Span A
    found : get_elem? spans k ≡ some span
    size : length span.elements ≡ n
    agree :
        (i : ℕ)
        → i < n
        → get_elem? (flat_elements spans) (span_start (span_numels spans) k + i)
          ≡ get_elem? span.elements i

  get_elem-Located :
      (spans : List (Span A)) (k n : ℕ)
      → get_elem? (span_numels spans) k ≡ some n
      → Located spans k n
  get_elem-Located [] k n h = cc
  get_elem-Located (s ∷ spans) zero n h =
      let e : length s.elements ≡ n = cc in
      record {
        span = s;
        found = refl;
        size = e;
        agree = λ i p.
            let z : 0 + i ≡ i = omega arith in
            rw z (get_elem-append_left s.elements (flat_elements spans) i (omega arith));
      }
  get_elem-Located (s ∷ spans) (suc k) n h =
      let r = get_elem-Located spans k n h in
      record {
        span = r.span;
        found = r.found;
        size = r.size;
        agree = λ i p.
            let z : length s.elements + span_start (span_numels spans) k + i
                ≡ length s.elements + (span_start (span_numels spans) k + i) =
              omega arith in
            rw z (get_elem-append_right s.elements (flat_elements spans) _ ∙ r.agree i p);
      }

  view_fragment-indices :
      (spans : List (Span A)) (f : Fragment)
      → Fits (span_numels spans) f
      → (view : List A) × (view_fragment spans f ≡ ok view)
        × (map some view
            ≡ map (get_elem? (flat_elements spans)) (fragment_indices (span_numels spans) f))
  view_fragment-indices spans f (n, found, some_cell, inside) =
      let r = get_elem-Located spans f.span_index n found in
      let e : leb (f.offset + f.numel) (length r.span.elements) ≡ true = ground (arith, r.size) in
      (
        take f.numel (drop f.offset r.span.elements),
        rw (r.found, e) refl,
        view_indices r.span.elements f.offset f.numel (omega (arith, r.size))
            ∙ sym (
                map_get-ext r.span.elements (flat_elements spans) n _ r.agree f.numel f.offset
                  inside),
      )

  view_fragments-indices :
      (spans : List (Span A)) (fs : List Fragment)
      → All (Fits (span_numels spans)) fs
      → (views : List (List A)) × (view_fragments spans fs ≡ ok views)
        × (map some (concat_map (λ view. view) views)
            ≡ map
                (get_elem? (flat_elements spans))
                (concat_map (fragment_indices (span_numels spans)) fs))
  view_fragments-indices spans [] fit = ([], refl, refl)
  view_fragments-indices spans (f ∷ fs) (fit, fits) =
      let (view, e, same) = view_fragment-indices spans f fit in
      let (views, e', sames) = view_fragments-indices spans fs fits in
      (
        view ∷ views,
        rw (e, e') refl,
        rw
            (
              map-append some view (concat_map (λ v. v) views),
              map-append (get_elem? (flat_elements spans)) (fragment_indices (span_numels spans) f)
                  (concat_map (fragment_indices (span_numels spans)) fs),
              same,
              sames,
            )
            refl,
      )

  slice_layout-selected :
      (layout : StaticTensorLayout A) (slices : List PySlice)
      → length slices ≡ length layout.shape
      → AllUnit slices
      → AllPos (span_numels layout.spans)
      → sum (span_numels layout.spans) ≡ shape_numel layout.shape
      → (views : List (List A)) × (slice_layout layout slices ≡ ok views)
        × (map some (concat_map (λ view. view) views)
            ≡ map (get_elem? (flat_elements layout.spans)) (selected layout.shape slices))
  unfolding slice_layout
  slice_layout-selected layout slices same unit positive covers =
      let (fs, e, cells, fit) =
        slice_layout_fragments-selected layout.shape slices (span_numels layout.spans) same unit
          positive covers in
      let (views, e', held) = view_fragments-indices layout.spans fs fit in
      (views, rw (e, e') refl, held ∙ ap (map (get_elem? (flat_elements layout.spans))) cells)

  -- A layout that the constructor returned has the given fields, and covers its shape.
  new_layout-covers :
      (shape : List ℕ) (spans : List (Span A)) (layout : StaticTensorLayout A)
      → new_layout shape spans ≡ ok layout
      → (layout ≡ record { shape = shape; spans = spans })
        × (sum (span_numels spans) ≡ shape_numel shape)
  unfolding new_layout
  new_layout-covers shape [] layout h = cc
  new_layout-covers shape (span ∷ spans) layout h =
      let (u, e, rest) = bind-eq-ok (check_spans span.dtype span.device (span ∷ spans)) _ h in
      let (c, last) = require-eq-ok _ _ _ rest in (ok-injective last, ==→eq _ _ c)

  -- For a layout of non-empty spans that the constructor returned, and unit-stride slices, one per
  -- dimension, `slice` returns views that hold, in order, the elements of the tensor at the flat
  -- indices that the slices select.
  pub new_layout-slice :
      (shape : List ℕ) (spans : List (Span A)) (layout : StaticTensorLayout A)
      (slices : List PySlice)
      → new_layout shape spans ≡ ok layout
      → AllPos (span_numels spans)
      → length slices ≡ length shape
      → AllUnit slices
      → (views : List (List A)) × (slice_layout layout slices ≡ ok views)
        × (map some (concat_map (λ view. view) views)
            ≡ map (get_elem? (flat_elements spans)) (selected shape slices))
  new_layout-slice shape spans layout slices made positive same unit =
      let (e, covers) = new_layout-covers shape spans layout made in
      rw e (
        slice_layout-selected (record { shape = shape; spans = spans }) slices same unit positive
          covers)
