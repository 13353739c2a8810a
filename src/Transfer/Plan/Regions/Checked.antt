-- ===== src/Transfer/Plan/Regions/Checked.antt =====
-- What the checks of `_build_region_communication_plan` let through.
use awex.Prelude.{ℕ, ◌≡◌, ◌≤◌, ◌<◌, List, [], ◌∷◌, arith, length, leb, ltb, not, ◌==◌}
use awex.Prelude.Outcome.{ok, require-eq-ok, ok-injective}
use awex.Transfer.Plan.Defs.{
  CommunicationOperation, OverlapRegion, TransferPlanBuilder, same_rank, send_rank_outside,
  recv_rank_outside, index_error,
}
use awex.Transfer.Plan.Regions.Region.{
  buffer_dims, region_operation, build_region_communication_plan,
}

-- The operation, between a training rank and an inference rank.
pub build_region-eq-ok :
    (builder : TransferPlanBuilder) (dims : ℕ) (r : OverlapRegion)
    (ops : List CommunicationOperation)
    → build_region_communication_plan builder dims r ≡ ok ops
    → (ops ≡ region_operation r ∷ [])
      × (builder.infer_world_size ≤ r.training_shard.rank)
      × (r.inference_shard.rank < builder.infer_world_size)
unfolding build_region_communication_plan
build_region-eq-ok builder dims r ops e =
    let (_, e1) =
      require-eq-ok (buffer_dims dims (length r.inference_shard.shape) == length r.overlap_start)
        index_error _ e in
    let (_, e2) =
      require-eq-ok (not (r.training_shard.rank == r.inference_shard.rank)) same_rank _ e1 in
    let (s, e3) =
      require-eq-ok (leb builder.infer_world_size r.training_shard.rank) send_rank_outside _ e2 in
    let (q, e4) =
      require-eq-ok (ltb r.inference_shard.rank builder.infer_world_size) recv_rank_outside _ e3 in
    (ok-injective e4, ground arith, ground arith)
