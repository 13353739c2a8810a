-- ===== src/Transfer/Plan/Build/PairSteps.antt =====
-- The steps behind the plan of one pair of replicas, where it is built for all ranks.
use awex.Prelude.{ℕ, ◌≡◌, true, false, none, some, List, length, get_elem?}
use awex.Prelude.Outcome
use awex.Prelude.Outcome.{ok, bind-eq-ok, or_raise, or_raise-eq-ok}
use awex.Meta.Weight.{ParameterShardMeta, ParameterReplicaMeta}
use awex.Transfer.Plan.Defs.{
  CommunicationOperation, ShardOffset, OverlapRegion, TransferPlanBuilder, index_error,
}
use awex.Transfer.Plan.Regions.{find_overlapping_regions, build_region_communication_plan}
use awex.Transfer.Plan.Build.Shards.{create_shard_offset_for_replica}
use awex.Transfer.Plan.Build.Parameter.{replica_pair_plan}

pub record PairSteps (builder : TransferPlanBuilder) (engine_rank : ℕ)
    (inference training : ParameterReplicaMeta) (ops : List CommunicationOperation) : Type 0 where
  pub first : ParameterShardMeta
  pub has_first : get_elem? training.shards 0 ≡ some first
  pub infs : List ShardOffset
  pub has_infs :
      create_shard_offset_for_replica builder inference engine_rank true none (length first.shape)
      ≡ ok infs
  pub trains : List ShardOffset
  pub has_trains :
      create_shard_offset_for_replica builder training 0 false none (length first.shape) ≡ ok trains
  pub regions : List OverlapRegion
  pub has_regions : find_overlapping_regions infs trains ≡ ok regions
  pub has_ops :
      Outcome.flat_map (build_region_communication_plan builder (length first.shape)) regions
      ≡ ok ops

pub replica_pair_plan-PairSteps :
    (builder : TransferPlanBuilder) (engine_rank : ℕ) (inference training : ParameterReplicaMeta)
    (ops : List CommunicationOperation)
    → replica_pair_plan builder none engine_rank inference training ≡ ok ops
    → PairSteps builder engine_rank inference training ops
unfolding replica_pair_plan
replica_pair_plan-PairSteps builder engine_rank inference training ops h =
    let (first, ef, h1) = bind-eq-ok (or_raise (get_elem? training.shards 0) index_error) _ h in
    let dims : ℕ = length first.shape in
    let (infs, ei, h2) =
      bind-eq-ok (create_shard_offset_for_replica builder inference engine_rank true none dims) _
        h1 in
    let (trains, et, h3) =
      bind-eq-ok (create_shard_offset_for_replica builder training 0 false none dims) _ h2 in
    let (regions, er, loop) = bind-eq-ok (find_overlapping_regions infs trains) _ h3 in
    record {
      first = first;
      has_first = or_raise-eq-ok (get_elem? training.shards 0) index_error ef;
      infs = infs;
      has_infs = ei;
      trains = trains;
      has_trains = et;
      regions = regions;
      has_regions = er;
      has_ops = loop;
    }
