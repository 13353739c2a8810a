-- ===== src/Transfer/Plan/Regions/Region.antt =====
-- awex/transfer/transfer_plan.py: `_build_region_communication_plan`.
use awex.Prelude.Int.{negsuc}
use awex.Prelude.{ℕ, ◌+◌, ◌-◌, List, [], ◌∷◌, leb, ltb, not, ◌==◌, if◌then◌else◌, length}
use awex.Prelude.Outcome.{Outcome, ok, ◌>>◌, require}
use awex.Transfer.Plan.Defs.{
  Slice, CommunicationOperation, OverlapRegion, PlanError, TransferPlanBuilder, same_rank,
  send_rank_outside, recv_rank_outside, index_error,
}

-- `shard.global_offset[i] + shard.shape[i]`
abbrev pub plus : List ℕ → List ℕ → List ℕ
plus (x ∷ xs) (y ∷ ys) = (x + y) ∷ plus xs ys
plus _ _ = []

-- `overlap_end[i] - overlap_start[i]` and the offsets inside a shard, dimension by dimension.
abbrev pub minus : List ℕ → List ℕ → List ℕ
minus (x ∷ xs) (y ∷ ys) = (x - y) ∷ minus xs ys
minus _ _ = []

unfoldable pub slices : List ℕ → List ℕ → List Slice
slices (o ∷ offset) (n ∷ shape) = (record { start = o; stop = o + n }) ∷ slices offset shape
slices _ _ = []

-- The operation for one region; what the source leaves at its default is written out.
unfoldable pub region_operation : OverlapRegion → CommunicationOperation
unfolding slices
region_operation region =
    let inf = region.inference_shard in
    let train = region.training_shard in
    let overlap_shape = minus region.overlap_end region.overlap_start in
    let inf_relative_offset = minus region.overlap_start inf.start_offset in
    let train_relative_offset = minus region.overlap_start train.start_offset in
    record {
      send_rank = train.rank;
      send_shard_meta = train.shard;
      send_offset = train_relative_offset;
      recv_rank = inf.rank;
      recv_shard_meta = inf.shard;
      recv_offset = inf_relative_offset;
      overlap_shape = overlap_shape;
      train_slices = slices train_relative_offset overlap_shape;
      inf_slices = slices inf_relative_offset overlap_shape;
      pp_rank = 0;
      placement_version = negsuc 0;
      param_class = "dense_other";
      send_tensor_span_numels = [];
    }

-- The length of the buffer that holds each tuple while it is computed: the shared one, or a fresh
-- one where that has no places. Of another length it is written or read past an end.
abbrev pub buffer_dims : ℕ → ℕ → ℕ
buffer_dims shared own = if shared == 0 then own else shared

unfoldable pub build_region_communication_plan :
    TransferPlanBuilder → ℕ → OverlapRegion → Outcome PlanError (List CommunicationOperation)
build_region_communication_plan builder dims region = do
  require (buffer_dims dims (length region.inference_shard.shape) == length region.overlap_start)
      index_error
  require (not (region.training_shard.rank == region.inference_shard.rank)) same_rank
  require (leb builder.infer_world_size region.training_shard.rank) send_rank_outside
  require (ltb region.inference_shard.rank builder.infer_world_size) recv_rank_outside
  ok (region_operation region ∷ [])
