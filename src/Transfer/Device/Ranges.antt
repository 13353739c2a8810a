-- ===== src/Transfer/Device/Ranges.antt =====
-- `_split_contiguous_tensor`, `_tensor_copy_layout` and `_append_tensor_range`.
use awex.Prelude.{
  ℕ, ◌+◌, ◌*◌, ◌/◌, ◌%◌, Bool, not, ◌||◌, Option, none, some, List, [], ◌∷◌, length, ltb, ◌==◌,
  if◌then◌else◌,
}
use awex.Prelude.Int.{pos}
use awex.Prelude.Outcome.{Outcome, ok, err, ◌>>=◌, ◌>>◌, raise_if, or_raise}
use awex.Transfer.Chunks.{TransferChunk, ChunkError, build_transfer_chunks}
use awex.Transfer.Device.Defs.{
  DeviceError, unaligned_boundary, inner_stride, row_stride_mismatch, invalid_row_stride,
  negative_total, index_error, DeviceTensor, numel, narrow, Task,
}

-- The `ValueError` of `build_transfer_chunks`, which nothing catches.
abbrev pub pass_error : {A : Type 0} → Outcome ChunkError A → Outcome DeviceError A
pass_error (ok chunks) = ok chunks
pass_error (err _) = err negative_total

abbrev pub device_chunks : ℕ → ℕ → Outcome DeviceError (List TransferChunk)
device_chunks nbytes chunk_bytes = pass_error (build_transfer_chunks (pos nbytes) (pos chunk_bytes))

-- Whether a chunk begins or ends inside an element.
abbrev pub is_unaligned : ℕ → ℕ → ℕ → Bool
is_unaligned element_size offset nbytes =
    not (offset % element_size == 0) || not (nbytes % element_size == 0)

abbrev pub split_loop :
    DeviceTensor → List TransferChunk → Outcome DeviceError (List (DeviceTensor × (ℕ × ℕ)))
split_loop tensor [] = ok []
split_loop tensor (chunk ∷ chunks) =
    raise_if (is_unaligned tensor.element_size chunk.byte_offset chunk.nbytes) unaligned_boundary
    >> (split_loop tensor chunks >>= λ rest. ok (
        (
          narrow tensor (chunk.byte_offset / tensor.element_size)
              (chunk.nbytes / tensor.element_size),
          (chunk.byte_offset, chunk.nbytes),
        )
        ∷ rest))

unfoldable pub split_contiguous_tensor :
    DeviceTensor → ℕ → Outcome DeviceError (List (DeviceTensor × (ℕ × ℕ)))
split_contiguous_tensor tensor chunk_bytes =
    device_chunks (numel tensor * tensor.element_size) chunk_bytes >>= split_loop tensor

-- `tensor.stride(-1)` and `tensor.shape[-1]`
abbrev pub last_of : List ℕ → Option ℕ
last_of [] = none
last_of (n ∷ []) = some n
last_of (n ∷ m ∷ ns) = last_of (m ∷ ns)

-- `tensor.stride(-2)`
abbrev pub second_last_of : List ℕ → Option ℕ
second_last_of (n ∷ m ∷ []) = some n
second_last_of (n ∷ m ∷ k ∷ ns) = second_last_of (m ∷ k ∷ ns)
second_last_of _ = none

-- The loop over `range(tensor.dim() - 2)`.
abbrev pub check_strides : List ℕ → List ℕ → Outcome DeviceError (Unit {0})
check_strides (d0 ∷ d1 ∷ d2 ∷ dims) (s0 ∷ s1 ∷ s2 ∷ strides) =
    raise_if (not (s0 == d1 * s1)) row_stride_mismatch
    >> check_strides (d1 ∷ d2 ∷ dims) (s1 ∷ s2 ∷ strides)
check_strides _ _ = ok tt

abbrev pub row_layout : DeviceTensor → Outcome DeviceError (ℕ × ℕ)
row_layout tensor = or_raise (last_of tensor.strides) index_error >>= λ last_stride.
    raise_if (not (last_stride == 1)) inner_stride
    >> (check_strides tensor.shape tensor.strides
        >> (or_raise (last_of tensor.shape) index_error >>= λ columns.
            or_raise (second_last_of tensor.strides) index_error >>= λ stride.
            let row_bytes = columns * tensor.element_size in
            let row_stride = stride * tensor.element_size in
            raise_if ((row_bytes == 0) || ltb row_stride row_bytes) invalid_row_stride
            >> ok (row_bytes, row_stride)))

unfoldable pub tensor_copy_layout : DeviceTensor → Outcome DeviceError (ℕ × ℕ)
tensor_copy_layout tensor =
    let total_bytes = numel tensor * tensor.element_size in
    let rows = row_layout tensor in
    if tensor.is_contiguous || ltb (length tensor.shape) 2
    then ok (total_bytes, total_bytes)
    else rows

-- The arguments of `_append_tensor_range` that stay the same in its loop.
pub record TensorRange : Type 0 where
  pub tensor : DeviceTensor
  pub tensor_offset : ℕ
  pub row_bytes : ℕ
  pub row_stride : ℕ
  pub peer : ℕ
  pub peer_offset : ℕ
  pub region_index : ℕ

abbrev pub contiguous_task : TensorRange → TransferChunk → ℕ → Task
contiguous_task range chunk ordinal = record {
  tensor =
      narrow range.tensor ((range.tensor_offset + chunk.byte_offset) / range.tensor.element_size)
        (chunk.nbytes / range.tensor.element_size);
  offset = range.peer_offset + chunk.byte_offset;
  length = chunk.nbytes;
  tensor_offset = 0;
  tensor_row_bytes = chunk.nbytes;
  tensor_row_stride = chunk.nbytes;
  peer = range.peer;
  ordinal = ordinal;
  region_index = range.region_index;
}

abbrev pub strided_task : TensorRange → TransferChunk → ℕ → Task
strided_task range chunk ordinal = record {
  tensor = range.tensor;
  offset = range.peer_offset + chunk.byte_offset;
  length = chunk.nbytes;
  tensor_offset = range.tensor_offset + chunk.byte_offset;
  tensor_row_bytes = range.row_bytes;
  tensor_row_stride = range.row_stride;
  peer = range.peer;
  ordinal = ordinal;
  region_index = range.region_index;
}

-- One round of the loop.
abbrev pub chunk_task : TensorRange → TransferChunk → ℕ → Outcome DeviceError Task
chunk_task range chunk ordinal =
    if range.tensor.is_contiguous
    then (raise_if
          (is_unaligned range.tensor.element_size (range.tensor_offset + chunk.byte_offset)
            chunk.nbytes)
          unaligned_boundary
        >> ok (contiguous_task range chunk ordinal))
    else ok (strided_task range chunk ordinal)

abbrev pub append_chunks :
    TensorRange → List TransferChunk → ℕ → Outcome DeviceError (List Task × ℕ)
append_chunks range [] ordinal = ok ([], ordinal)
append_chunks range (chunk ∷ chunks) ordinal = chunk_task range chunk ordinal >>= λ task.
    append_chunks range chunks (ordinal + 1) >>= λ rest. ok (task ∷ rest.0, rest.1)

-- The tasks that are appended, and the next ordinal.
unfoldable pub append_tensor_range : ℕ → TensorRange → ℕ → ℕ → Outcome DeviceError (List Task × ℕ)
append_tensor_range chunk_bytes range nbytes ordinal =
    device_chunks nbytes chunk_bytes >>= λ chunks. append_chunks range chunks ordinal
