-- ===== src/Transfer/Plan/Pruning/Pairs.antt =====
-- One pair of replicas: a restricted call makes the wanted operations of the unrestricted one.
use awex.Prelude.{
  ℕ, ◌≡◌, refl, Bool, true, false, ◌&&◌, Option, none, some, List, length, filter, filter-and,
  filter-const, All, All-Unit,
}
use awex.Prelude.Loops.{flat_map-filter, flat_map-filter_inputs, All-flat_map}
use awex.Prelude.Outcome
use awex.Prelude.Outcome.{ok, bind-eq-ok, ok-injective, or_raise}
use awex.Meta.Weight.{ParameterReplicaMeta}
use awex.Transfer.Plan.Defs.{
  CommunicationOperation, ShardOffset, OverlapRegion, TransferPlanBuilder,
}
use awex.Transfer.Plan.Regions.{
  Bounds, overlap_dims, overlap_region, to_region, find_overlapping_regions, region_operation,
  build_region_communication_plan, build_region-eq-ok,
}
use awex.Transfer.Plan.Build.{selects, infer_wanted, train_wanted, replica_pair_plan}
use awex.Transfer.Plan.Build.ShardLaws.{create-filter}
use awex.Transfer.Plan.Build.PairSteps.{replica_pair_plan-PairSteps}

-- The operations that a call restricted to a rank is after.
abbrev pub is_wanted : TransferPlanBuilder → Option ℕ → CommunicationOperation → Bool
is_wanted builder wanted op =
    selects (infer_wanted builder wanted) op.recv_rank
    && selects (train_wanted builder wanted) op.send_rank

module _ (iw tw : Option ℕ) where
  abbrev inf_test : ShardOffset → Bool
  inf_test o = selects iw o.rank

  abbrev train_test : ShardOffset → Bool
  train_test o = selects tw o.rank

  to_region-inference :
      (inf train : ShardOffset) (b : Bounds)
      → All (λ r. inf_test r.inference_shard ≡ inf_test inf) (to_region inf train b)
  to_region-inference inf train none = tt
  to_region-inference inf train (some b) = (refl, tt)

  to_region-training :
      (inf train : ShardOffset) (b : Bounds)
      → All (λ r. train_test r.training_shard ≡ train_test train) (to_region inf train b)
  to_region-training inf train none = tt
  to_region-training inf train (some b) = (refl, tt)

  -- The shards of a region are the pair that it was found from.
  overlap_region-inference :
      (inf train : ShardOffset) (rs : List OverlapRegion)
      → overlap_region inf train ≡ ok rs
      → All (λ r. inf_test r.inference_shard ≡ inf_test inf) rs
  unfolding overlap_region
  overlap_region-inference inf train rs h =
      let (b, e, last) =
        bind-eq-ok
          (overlap_dims inf.start_offset train.start_offset inf.end_offset train.end_offset) _ h in
      rw (ok-injective last) (to_region-inference inf train b)

  overlap_region-training :
      (inf train : ShardOffset) (rs : List OverlapRegion)
      → overlap_region inf train ≡ ok rs
      → All (λ r. train_test r.training_shard ≡ train_test train) rs
  unfolding overlap_region
  overlap_region-training inf train rs h =
      let (b, e, last) =
        bind-eq-ok
          (overlap_dims inf.start_offset train.start_offset inf.end_offset train.end_offset) _ h in
      rw (ok-injective last) (to_region-training inf train b)

  find-filter_inference :
      (infs trains : List ShardOffset) (rs : List OverlapRegion)
      → find_overlapping_regions infs trains ≡ ok rs
      → find_overlapping_regions (filter inf_test infs) trains
        ≡ ok (filter (λ r. inf_test r.inference_shard) rs)
  unfolding find_overlapping_regions
  find-filter_inference infs trains rs h =
      flat_map-filter_inputs _ inf_test (λ r. inf_test r.inference_shard)
        (λ inf ys e. filter-const _ (inf_test inf) ys (
          All-flat_map (overlap_region inf) (λ _. Unit {0}) _
            (λ train zs _. overlap_region-inference inf train zs) trains ys (All-Unit trains) e))
        infs rs h

  find-filter_training :
      (infs trains : List ShardOffset) (rs : List OverlapRegion)
      → find_overlapping_regions infs trains ≡ ok rs
      → find_overlapping_regions infs (filter train_test trains)
        ≡ ok (filter (λ r. train_test r.training_shard) rs)
  unfolding find_overlapping_regions
  find-filter_training infs trains rs h =
      flat_map-filter _ _ (λ r. train_test r.training_shard)
        (λ inf ys e.
          flat_map-filter_inputs (overlap_region inf) train_test (λ r. train_test r.training_shard)
            (λ train zs e'.
              filter-const _ (train_test train) zs (overlap_region-training inf train zs e'))
            trains ys e)
        infs rs h

module _ (builder : TransferPlanBuilder) (dims : ℕ) where
  -- Dropping regions drops their operations.
  build-filter :
      (q : OverlapRegion → Bool) (p : CommunicationOperation → Bool)
      → ((r : OverlapRegion) → p (region_operation r) ≡ q r)
      → (regions : List OverlapRegion) (ops : List CommunicationOperation)
      → Outcome.flat_map (build_region_communication_plan builder dims) regions ≡ ok ops
      → Outcome.flat_map (build_region_communication_plan builder dims) (filter q regions)
        ≡ ok (filter p ops)
  build-filter q p same =
      flat_map-filter_inputs (build_region_communication_plan builder dims) q p
        λ r ys e. let (last, _, _) = build_region-eq-ok builder dims r ys e in rw (last, same r)

-- The operations of a pair of replicas for one rank are the wanted ones among those for all ranks,
-- in the same order.
pub replica_pair_plan-pruned :
    (builder : TransferPlanBuilder) (wanted : Option ℕ) (engine_rank : ℕ)
    (inference training : ParameterReplicaMeta) (ops : List CommunicationOperation)
    → replica_pair_plan builder none engine_rank inference training ≡ ok ops
    → replica_pair_plan builder wanted engine_rank inference training
      ≡ ok (filter (is_wanted builder wanted) ops)
unfolding region_operation
replica_pair_plan-pruned builder wanted engine_rank inference training ops h =
    let s = replica_pair_plan-PairSteps builder engine_rank inference training ops h in
    let iw = infer_wanted builder wanted in
    let tw = train_wanted builder wanted in
    let dims : ℕ = length s.first.shape in
    let found = find-filter_inference iw tw s.infs s.trains s.regions s.has_regions in
    let found' = find-filter_training iw tw _ s.trains _ found in
    let built =
      build-filter builder dims (λ r. inf_test iw tw r.inference_shard)
        (λ op. selects iw op.recv_rank) (λ r. refl) s.regions ops s.has_ops in
    let built' =
      build-filter builder dims (λ r. train_test iw tw r.training_shard)
        (λ op. selects tw op.send_rank) (λ r. refl) _ _ built in
    unfold replica_pair_plan in
    rw (
      s.has_first,
      create-filter builder engine_rank true iw inference dims s.infs s.has_infs,
      create-filter builder 0 false tw training dims s.trains s.has_trains,
      found',
      built',
      filter-and (λ op. selects tw op.send_rank) (λ op. selects iw op.recv_rank) ops,
    )
