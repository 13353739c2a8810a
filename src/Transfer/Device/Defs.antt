-- ===== src/Transfer/Device/Defs.antt =====
-- The records of a batch, the exceptions, and the checks on the plan and on the chunk size.
use awex.Prelude.{
  ℕ, zero, suc, ◌+◌, ◌*◌, ◌%◌, String, Bool, true, false, not, ◌||◌, Option, none, some, List, [],
  ◌∷◌, map, leb, ◌==◌,
}
use awex.Prelude.Int.{ℤ, pos, negsuc}
use awex.Prelude.Outcome.{Outcome, ok, err, ◌>>=◌, ◌>>◌, raise_if, or_raise}
use awex.Prelude.Sort.{sort}
use awex.Transfer.Layout.{LayoutError}
use awex.Transfer.Plan.Defs.{CommunicationOperation}
use awex.Transfer.Plan.Local.{OpDict, ops_at, peer_keys}
use awex.Transfer.Comm.Rotation.{has_rank}

-- A `NCCLDeviceUnavailableError` for each of its messages, and Python's own exceptions.
pub data DeviceError : Type 0 where
  invalid_peer : DeviceError
  self_transfer : DeviceError
  not_an_integer : DeviceError
  negative_chunk : DeviceError
  unaligned_chunk : DeviceError
  unaligned_boundary : DeviceError
  not_cuda : DeviceError
  inner_stride : DeviceError
  row_stride_mismatch : DeviceError
  invalid_row_stride : DeviceError
  layout_mismatch : DeviceError
  source_mismatch : DeviceError
  topology_exceeds : DeviceError
  invalid_step : DeviceError
  plan_grew : DeviceError
  world_size_range : DeviceError
  layout_error : LayoutError → DeviceError
  negative_total : DeviceError
  key_error : DeviceError
  index_error : DeviceError

-- What the file reads of a tensor.
pub record DeviceTensor : Type 0 where
  pub data_ptr : ℕ
  pub element_size : ℕ
  pub shape : List ℕ
  pub strides : List ℕ
  pub is_contiguous : Bool
  pub is_cuda : Bool

abbrev pub numel_of : List ℕ → ℕ
numel_of [] = 1
numel_of (dim ∷ dims) = dim * numel_of dims

abbrev pub numel : DeviceTensor → ℕ
numel tensor = numel_of tensor.shape

-- `tensor.reshape(-1).narrow(0, start, length)` of a contiguous tensor
abbrev pub narrow : DeviceTensor → ℕ → ℕ → DeviceTensor
narrow tensor start length = record {
  data_ptr = tensor.data_ptr + start * tensor.element_size;
  element_size = tensor.element_size;
  shape = length ∷ [];
  strides = 1 ∷ [];
  is_contiguous = true;
  is_cuda = tensor.is_cuda;
}

-- One index of the lists that `_append_tensor_range` extends together.
pub record Task : Type 0 where
  pub tensor : DeviceTensor
  pub offset : ℕ
  pub length : ℕ
  pub tensor_offset : ℕ
  pub tensor_row_bytes : ℕ
  pub tensor_row_stride : ℕ
  pub peer : ℕ
  pub ordinal : ℕ
  pub region_index : ℕ

-- `_DeviceBatch`
pub record DeviceBatch : Type 0 where
  pub tasks : List Task
  pub region_bytes : List ℕ
  pub expected_counts : List ℕ
  pub copybacks : List (DeviceTensor × DeviceTensor)
  pub multicast_groups : List (List ℕ)

-- `any(peer >= world_size for peer in peers)`
abbrev pub any_outside : ℕ → List ℕ → Bool
any_outside world_size [] = false
any_outside world_size (peer ∷ peers) = leb world_size peer || any_outside world_size peers

unfoldable pub operation_groups :
    OpDict → ℕ → ℕ → Outcome DeviceError (List (ℕ × List CommunicationOperation))
operation_groups operations rank world_size =
    let peers = sort leb (peer_keys operations) in
    raise_if (any_outside world_size peers) invalid_peer
    >> (raise_if (has_rank rank peers) self_transfer
        >> ok (map (λ peer. (peer, ops_at peer operations)) peers))

abbrev pub default_chunk_bytes : ℕ
default_chunk_bytes = 4 * 1024 * 1024

abbrev pub chunk_alignment : ℕ
chunk_alignment = 16

-- The checks on a given size.
abbrev pub check_chunk_bytes : ℤ → Outcome DeviceError ℕ
check_chunk_bytes (negsuc n) = err negative_chunk
check_chunk_bytes (pos n) = raise_if (not (n % chunk_alignment == 0)) unaligned_chunk >> ok n

-- `int(configured)`, for the variable of the environment and how the language reads a number.
abbrev pub configured_chunk_bytes : (String → Option ℤ) → Option String → Outcome DeviceError ℤ
configured_chunk_bytes parse_int none = ok (pos default_chunk_bytes)
configured_chunk_bytes parse_int (some configured) = or_raise (parse_int configured) not_an_integer

unfoldable pub resolve_chunk_bytes :
    (String → Option ℤ) → Option String → Option ℤ → Outcome DeviceError ℕ
resolve_chunk_bytes parse_int configured none =
    configured_chunk_bytes parse_int configured >>= check_chunk_bytes
resolve_chunk_bytes parse_int configured (some chunk_bytes) = check_chunk_bytes chunk_bytes

-- `_sequence_from_step`
unfoldable pub sequence_from_step : ℤ → Outcome DeviceError ℕ
sequence_from_step (pos n) = ok (n + 2)
sequence_from_step (negsuc zero) = ok 1
sequence_from_step (negsuc (suc n)) = err invalid_step
