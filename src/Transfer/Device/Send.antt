-- ===== src/Transfer/Device/Send.antt =====
-- `_build_send_batch`. Indexing a tensor by slices, and making a contiguous one, are arguments.
use text.Mathlib.Text.{◌==◌ as str_eq}
use awex.Prelude.{
  ℕ, ◌+◌, ◌*◌, String, Bool, true, false, ◌&&◌, ◌||◌, Option, none, some, List, [], ◌∷◌, ◌++◌, map,
  get_elem?, set, replicate, max, ◌==◌, if◌then◌else◌,
}
use awex.Prelude.Int.{pos}
use awex.Prelude.Outcome.{Outcome, ok, err, ◌>>=◌, ◌>>◌, require, or_raise}
use awex.Transfer.Layout.{PySlice, Fragment, slice_layout_fragments}
use awex.Transfer.Plan.Defs.{Slice, CommunicationOperation}
use awex.Transfer.Device.Defs.{
  DeviceError, not_cuda, layout_mismatch, layout_error, key_error, index_error, DeviceTensor, numel,
  narrow, Task, DeviceBatch,
}
use awex.Transfer.Device.Ranges.{tensor_copy_layout, append_tensor_range}

-- `_build_send_batch` and `_build_recv_batch` get the tensors of the rank by name: a tensor, or a
-- `StaticTensorLayout` of the contiguous spans of a tensor.
pub data Parameter : Type 0 where
  plain : DeviceTensor → Parameter
  layout : List ℕ → List DeviceTensor → Parameter

abbrev pub find_parameter : String → List (String × Parameter) → Option Parameter
find_parameter name [] = none
find_parameter name ((n, parameter) ∷ rest) =
    if str_eq n name then some parameter else find_parameter name rest

-- What the functions use of torch.
pub record Torch : Type 0 where
  pub index : DeviceTensor → List Slice → DeviceTensor
  pub contiguous : DeviceTensor → DeviceTensor
  pub empty_like : DeviceTensor → DeviceTensor

-- `slice(start, stop)`
abbrev pub py_slice : Slice → PySlice
py_slice s = record { start = some (pos s.start); stop = some (pos s.stop); step = none }

abbrev pub layout_fragments : List ℕ → List Slice → List ℕ → Outcome DeviceError (List Fragment)
layout_fragments shape slices spans =
    elim (slice_layout_fragments shape (map py_slice slices) spans) [
      | ok fragments ↦ ok fragments
      | err e ↦ err (layout_error e)
    ]

-- The views of `StaticTensorLayout.slice`.
abbrev pub span_views : List DeviceTensor → List Fragment → Outcome DeviceError (List DeviceTensor)
span_views spans [] = ok []
span_views spans (f ∷ fs) = or_raise (get_elem? spans f.span_index) index_error >>= λ span.
    span_views spans fs >>= λ views. ok (narrow span f.offset f.numel ∷ views)

abbrev pub same_numels : List ℕ → List ℕ → Bool
same_numels [] [] = true
same_numels (m ∷ ms) (n ∷ ns) = (m == n) && same_numels ms ns
same_numels _ _ = false

abbrev pub is_nil : List ℕ → Bool
is_nil [] = true
is_nil (_ ∷ _) = false

module _ (torch : Torch) where
  -- `tensor.contiguous()` where it is not.
  abbrev pub staged : DeviceTensor → DeviceTensor
  staged tensor = if tensor.is_contiguous then tensor else torch.contiguous tensor

  -- The tensors that an operation sends.
  abbrev pub send_fragments :
      Bool → Parameter → CommunicationOperation → Outcome DeviceError (List DeviceTensor)
  send_fragments allow_staging (layout shape spans) op =
      require
        (is_nil op.send_tensor_span_numels
          || same_numels (map numel spans) op.send_tensor_span_numels)
        layout_mismatch
      >> (layout_fragments shape op.train_slices (map numel spans) >>= span_views spans)
  send_fragments allow_staging (plain tensor) op =
      let view = torch.index tensor op.train_slices in
      ok ((if allow_staging then staged view else view) ∷ [])

-- What the loops carry for one peer: `peer_offset` and `ordinal`.
pub record PeerCursor : Type 0 where
  pub peer_offset : ℕ
  pub ordinal : ℕ

abbrev pub Appended : Type 0
Appended = List Task × PeerCursor

module _ (chunk_bytes rank peer : ℕ) where
  -- `for fragment in fragments`
  abbrev pub send_fragment_loop : List DeviceTensor → PeerCursor → Outcome DeviceError Appended
  send_fragment_loop [] cursor = ok ([], cursor)
  send_fragment_loop (fragment ∷ fragments) cursor =
      let length = numel fragment * fragment.element_size in
      require fragment.is_cuda not_cuda
      >> (tensor_copy_layout fragment >>= λ rows.
          append_tensor_range chunk_bytes
            (record {
              tensor = fragment;
              tensor_offset = 0;
              row_bytes = rows.0;
              row_stride = rows.1;
              peer = peer;
              peer_offset = cursor.peer_offset;
              region_index = rank;
            })
            length cursor.ordinal
          >>= λ appended.
              send_fragment_loop fragments
                (record { peer_offset = cursor.peer_offset + length; ordinal = appended.1 })
              >>= λ rest. ok (appended.0 ++ rest.0, rest.1))

module _ (torch : Torch) (allow_staging : Bool) (parameters : List (String × Parameter))
    (chunk_bytes rank : ℕ) where
  -- `for op in operations`
  abbrev pub send_op_loop :
      ℕ → List CommunicationOperation → PeerCursor → Outcome DeviceError Appended
  send_op_loop peer [] cursor = ok ([], cursor)
  send_op_loop peer (op ∷ ops) cursor =
      or_raise (find_parameter op.send_shard_meta.name parameters) key_error >>= λ parameter.
      send_fragments torch allow_staging parameter op >>= λ fragments.
      send_fragment_loop chunk_bytes rank peer fragments cursor >>= λ here.
      send_op_loop peer ops here.1 >>= λ rest. ok (here.0 ++ rest.0, rest.1)

  -- `for peer, operations in _operation_groups(...)`, with `expected_counts` and `region_bytes`.
  abbrev pub send_group_loop :
      List (ℕ × List CommunicationOperation) → DeviceBatch → Outcome DeviceError DeviceBatch
  send_group_loop [] batch = ok batch
  send_group_loop ((peer, ops) ∷ groups) batch =
      send_op_loop peer ops (record { peer_offset = 0; ordinal = 0 }) >>= λ here.
      or_raise (get_elem? batch.region_bytes rank) index_error >>= λ region.
      send_group_loop groups (record {
        tasks = batch.tasks ++ here.0;
        region_bytes = set batch.region_bytes rank (max region here.1.peer_offset);
        expected_counts = set batch.expected_counts peer here.1.ordinal;
        copybacks = [];
        multicast_groups = [];
      })

abbrev pub empty_batch : ℕ → DeviceBatch
empty_batch world_size = record {
  tasks = [];
  region_bytes = replicate world_size 0;
  expected_counts = replicate world_size 0;
  copybacks = [];
  multicast_groups = [];
}
