-- ===== src/Transfer/Device/Views.antt =====
-- Without staging a batch reads the tensors of the parameters themselves: no copy plays a part in it.
use awex.Prelude.{ℕ, ◌≡◌, refl, ap, String, false, List, [], ◌∷◌, ◌++◌, set, max, get_elem?}
use awex.Prelude.Int.{ℤ}
use awex.Prelude.Outcome.{ok, ◌>>=◌, or_raise}
use awex.Transfer.Plan.Defs.{Slice, CommunicationOperation}
use awex.Transfer.Plan.Local.{OpDict}
use awex.Transfer.Device.Defs.{
  key_error, index_error, DeviceTensor, DeviceBatch, check_chunk_bytes, operation_groups,
}
use awex.Transfer.Device.Send.{
  Torch, Parameter, plain, layout, find_parameter, send_fragments, PeerCursor, send_fragment_loop,
  send_op_loop, send_group_loop, empty_batch,
}
use awex.Transfer.Device.Multicast.{find_multicast_groups, build_send_batch}

-- Indexing gives views: the same view of the same tensor at any time.
abbrev pub SameViews : Torch → Torch → Type 0
SameViews earlier now =
    (tensor : DeviceTensor) (slices : List Slice)
    → earlier.index tensor slices ≡ now.index tensor slices

module _ (earlier now : Torch) (views : SameViews earlier now) where
  send_fragments-views :
      (parameter : Parameter) (op : CommunicationOperation)
      → send_fragments earlier false parameter op ≡ send_fragments now false parameter op
  send_fragments-views (layout shape spans) op = refl
  send_fragments-views (plain tensor) op = ap (λ v. ok (v ∷ [])) (views tensor op.train_slices)

  module _ (parameters : List (String × Parameter)) (chunk_bytes rank : ℕ) where
    send_op_loop-views :
        (peer : ℕ) (ops : List CommunicationOperation) (cursor : PeerCursor)
        → send_op_loop earlier false parameters chunk_bytes rank peer ops cursor
          ≡ send_op_loop now false parameters chunk_bytes rank peer ops cursor
    send_op_loop-views peer [] cursor = refl
    send_op_loop-views peer (op ∷ ops) cursor = λ i.
        or_raise (find_parameter op.send_shard_meta.name parameters) key_error >>= λ parameter.
        send_fragments-views parameter op i >>= λ fragments.
        send_fragment_loop chunk_bytes rank peer fragments cursor >>= λ here.
        send_op_loop-views peer ops here.1 i >>= λ rest. ok (here.0 ++ rest.0, rest.1)

    send_group_loop-views :
        (groups : List (ℕ × List CommunicationOperation)) (batch : DeviceBatch)
        → send_group_loop earlier false parameters chunk_bytes rank groups batch
          ≡ send_group_loop now false parameters chunk_bytes rank groups batch
    send_group_loop-views [] batch = refl
    send_group_loop-views ((peer, ops) ∷ groups) batch = λ i.
        send_op_loop-views peer ops (record { peer_offset = 0; ordinal = 0 }) i >>= λ here.
        or_raise (get_elem? batch.region_bytes rank) index_error >>= λ region.
        send_group_loop-views groups
          (record {
            tasks = batch.tasks ++ here.0;
            region_bytes = set batch.region_bytes rank (max region here.1.peer_offset);
            expected_counts = set batch.expected_counts peer here.1.ordinal;
            copybacks = [];
            multicast_groups = [];
          })
          i

  pub build_send_batch-views :
      (parameters : List (String × Parameter)) (operations : OpDict) (rank world_size : ℕ)
      (chunk_bytes : ℤ) (instance_world_size engine_count : ℕ)
      → build_send_batch earlier false parameters operations rank world_size chunk_bytes
          instance_world_size engine_count
        ≡ build_send_batch now false parameters operations rank world_size chunk_bytes
            instance_world_size engine_count
  unfolding build_send_batch
  build_send_batch-views parameters operations rank world_size chunk_bytes instance_world_size
        engine_count =
      λ i. check_chunk_bytes chunk_bytes >>= λ resolved.
      operation_groups operations rank world_size >>= λ groups.
      send_group_loop-views parameters resolved rank groups (empty_batch world_size) i >>= λ batch.
      find_multicast_groups batch instance_world_size engine_count >>= λ multicast. ok (record {
        tasks = batch.tasks;
        region_bytes = batch.region_bytes;
        expected_counts = batch.expected_counts;
        copybacks = [];
        multicast_groups = multicast;
      })
