-- ===== src/Transfer/Layout/Static.antt =====
-- `StaticTensorLayout`: its checks, and its `slice`. A tensor of the library is a record of what
-- the class reads of it; the elements are of any type.
use text.Mathlib.Text.{◌==◌ as str_eq}
use awex.Prelude.{
  ℕ, ◌+◌, Bool, ◌&&◌, String, List, [], ◌∷◌, map, length, get_elem?, take, drop, leb, ◌==◌,
}
use awex.Prelude.Outcome.{Outcome, ok, err, ◌>>=◌, ◌>>◌, require, or_raise}
use awex.Transfer.Layout.{
  PySlice, LayoutError, no_spans, not_contiguous, mixed_spans, not_covered, index_error,
  shape_numel, sum, Fragment, slice_layout_fragments,
}

pub record Span (A : Type 0) : Type 0 where
  pub is_contiguous : Bool
  pub dtype : String
  pub device : String
  pub elements : List A

pub record StaticTensorLayout (A : Type 0) : Type 0 where
  pub shape : List ℕ
  pub spans : List (Span A)

module _ {A : Type 0} where
  abbrev pub span_numels : List (Span A) → List ℕ
  span_numels = map (λ span. length span.elements)

  -- The loop over the spans, for the first span's type and device.
  abbrev pub check_spans : String → String → List (Span A) → Outcome LayoutError (Unit {0})
  check_spans dtype device [] = ok tt
  check_spans dtype device (span ∷ spans) =
      require span.is_contiguous not_contiguous
      >> require (str_eq span.dtype dtype && str_eq span.device device) mixed_spans
      >> check_spans dtype device spans

  -- `__init__` with `__post_init__`
  unfoldable pub new_layout : List ℕ → List (Span A) → Outcome LayoutError (StaticTensorLayout A)
  new_layout shape [] = err no_spans
  new_layout shape (span ∷ spans) =
      check_spans span.dtype span.device (span ∷ spans)
      >> (require (sum (span_numels (span ∷ spans)) == shape_numel shape) not_covered
          >> ok (record { shape = shape; spans = span ∷ spans }))

  -- `self.spans[span_index].reshape(-1).narrow(0, offset, length)`
  abbrev pub view_fragment : List (Span A) → Fragment → Outcome LayoutError (List A)
  view_fragment spans f = or_raise (get_elem? spans f.span_index) index_error >>= λ span.
      require (leb (f.offset + f.numel) (length span.elements)) index_error
      >> ok (take f.numel (drop f.offset span.elements))

  abbrev pub view_fragments : List (Span A) → List Fragment → Outcome LayoutError (List (List A))
  view_fragments spans [] = ok []
  view_fragments spans (f ∷ fs) =
      view_fragment spans f >>= λ view. view_fragments spans fs >>= λ views. ok (view ∷ views)

  -- `slice`
  unfoldable pub slice_layout :
      StaticTensorLayout A → List PySlice → Outcome LayoutError (List (List A))
  slice_layout layout slices =
      slice_layout_fragments layout.shape slices (span_numels layout.spans)
      >>= view_fragments layout.spans
