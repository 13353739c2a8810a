-- ===== src/Transfer/Device/Recv.antt =====
-- `_build_recv_batch`.
use awex.Prelude.{
  ℕ, ◌+◌, ◌*◌, String, Bool, true, false, List, [], ◌∷◌, ◌++◌, map, get_elem?, set, max, ◌==◌,
  if◌then◌else◌,
}
use awex.Prelude.Int.{ℤ}
use awex.Prelude.Outcome.{Outcome, ok, err, ◌>>=◌, ◌>>◌, require, or_raise}
use awex.Transfer.Layout.{Fragment, sum}
use awex.Transfer.Plan.Defs.{CommunicationOperation}
use awex.Transfer.Plan.Local.{OpDict}
use awex.Transfer.Device.Defs.{
  DeviceError, not_cuda, source_mismatch, key_error, index_error, DeviceTensor, numel, DeviceBatch,
  check_chunk_bytes, operation_groups,
}
use awex.Transfer.Device.Ranges.{tensor_copy_layout, append_tensor_range}
use awex.Transfer.Device.Send.{
  Torch, Parameter, plain, layout, find_parameter, layout_fragments, is_nil, PeerCursor, Appended,
  empty_batch,
}

-- The view of an operation, where it is written at the end, and its rows.
pub record Target : Type 0 where
  pub tensor : DeviceTensor
  pub rows : ℕ × ℕ
  pub copybacks : List (DeviceTensor × DeviceTensor)

-- `fragment_numels`
abbrev pub recv_numels : CommunicationOperation → DeviceTensor → Outcome DeviceError (List ℕ)
recv_numels op target =
    let split =
      layout_fragments op.send_shard_meta.shape op.train_slices op.send_tensor_span_numels
      >>= λ fragments.
          let numels = map (λ (f : Fragment). f.numel) fragments in
          require (sum numels == numel target) source_mismatch >> ok numels in
    if is_nil op.send_tensor_span_numels then ok (numel target ∷ []) else split

module _ (torch : Torch) where
  -- A view whose rows have no fixed pitch is received into a contiguous tensor and copied back,
  -- where staging is allowed.
  abbrev pub stage_view :
      Bool → DeviceTensor → Outcome DeviceError (ℕ × ℕ) → Outcome DeviceError Target
  stage_view allow_staging view (ok rows) =
      ok (record { tensor = view; rows = rows; copybacks = [] })
  stage_view false view (err e) = err e
  stage_view true view (err e) =
      let target = torch.empty_like view in
      tensor_copy_layout target >>= λ rows.
      ok (record { tensor = target; rows = rows; copybacks = (view, target) ∷ [] })

  abbrev pub recv_target : Bool → Parameter → CommunicationOperation → Outcome DeviceError Target
  recv_target allow_staging (layout shape spans) op = err key_error
  recv_target allow_staging (plain tensor) op =
      let view = torch.index tensor op.inf_slices in
      stage_view allow_staging view (tensor_copy_layout view)

module _ (chunk_bytes peer : ℕ) (target : Target) where
  -- `for fragment_numel in fragment_numels`
  abbrev pub recv_fragment_loop : List ℕ → ℕ → PeerCursor → Outcome DeviceError Appended
  recv_fragment_loop [] target_offset cursor = ok ([], cursor)
  recv_fragment_loop (fragment_numel ∷ numels) target_offset cursor =
      let length = fragment_numel * target.tensor.element_size in
      append_tensor_range chunk_bytes
        (record {
          tensor = target.tensor;
          tensor_offset = target_offset;
          row_bytes = target.rows.0;
          row_stride = target.rows.1;
          peer = peer;
          peer_offset = cursor.peer_offset;
          region_index = peer;
        })
        length cursor.ordinal
      >>= λ appended.
          recv_fragment_loop numels (target_offset + length)
            (record { peer_offset = cursor.peer_offset + length; ordinal = appended.1 })
          >>= λ rest. ok (appended.0 ++ rest.0, rest.1)

module _ (torch : Torch) (allow_staging : Bool) (parameters : List (String × Parameter)) where
  -- `for op in operations`
  abbrev pub recv_op_loop :
      ℕ
      → ℕ
      → List CommunicationOperation
      → PeerCursor
      → Outcome DeviceError (Appended × List (DeviceTensor × DeviceTensor))
  recv_op_loop chunk_bytes peer [] cursor = ok (([], cursor), [])
  recv_op_loop chunk_bytes peer (op ∷ ops) cursor =
      or_raise (find_parameter op.recv_shard_meta.name parameters) key_error >>= λ parameter.
      recv_target torch allow_staging parameter op >>= λ target.
      require target.tensor.is_cuda not_cuda
      >> (recv_numels op target.tensor >>= λ numels.
          recv_fragment_loop chunk_bytes peer target numels 0 cursor >>= λ here.
          recv_op_loop chunk_bytes peer ops here.1 >>= λ rest.
          ok ((here.0 ++ rest.0.0, rest.0.1), target.copybacks ++ rest.1))

  -- `for peer, operations in _operation_groups(...)`
  abbrev pub recv_group_loop :
      ℕ → List (ℕ × List CommunicationOperation) → DeviceBatch → Outcome DeviceError DeviceBatch
  recv_group_loop chunk_bytes [] batch = ok batch
  recv_group_loop chunk_bytes ((peer, ops) ∷ groups) batch =
      recv_op_loop chunk_bytes peer ops (record { peer_offset = 0; ordinal = 0 }) >>= λ here.
      or_raise (get_elem? batch.region_bytes peer) index_error >>= λ region.
      recv_group_loop chunk_bytes groups (record {
        tasks = batch.tasks ++ here.0.0;
        region_bytes = set batch.region_bytes peer (max region here.0.1.peer_offset);
        expected_counts = set batch.expected_counts peer here.0.1.ordinal;
        copybacks = batch.copybacks ++ here.1;
        multicast_groups = [];
      })

  unfoldable pub build_recv_batch : OpDict → ℕ → ℕ → ℤ → Outcome DeviceError DeviceBatch
  build_recv_batch operations rank world_size chunk_bytes =
      check_chunk_bytes chunk_bytes >>= λ resolved.
      operation_groups operations rank world_size >>= λ groups.
      recv_group_loop resolved groups (empty_batch world_size)
