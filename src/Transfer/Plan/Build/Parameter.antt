-- ===== src/Transfer/Plan/Build/Parameter.antt =====
-- awex/transfer/transfer_plan.py: `_build_parameter_communication_plan`.
use awex.Prelude.{
  ℕ, ◌+◌, ◌%◌, true, false, Option, none, some, List, [], ◌∷◌, map, length, get_elem?, ltb,
  if◌then◌else◌, ◌||◌,
}
use awex.Prelude.Range.{range}
use mathlib.Core.List
use awex.Prelude.Outcome
use awex.Prelude.Outcome.{Outcome, ok, err, ◌>>=◌, ◌>>◌, raise_if, or_raise}
use awex.Meta.Weight.{ParameterReplicaMeta, ParameterMeta}
use awex.Transfer.Plan.Defs.{
  CommunicationOperation, PlanError, TransferPlanBuilder, no_replicas, index_error,
}
use awex.Transfer.Plan.Regions.{find_overlapping_regions, build_region_communication_plan}
use awex.Transfer.Plan.Build.Shards.{create_shard_offset_for_replica, is_empty}

-- Every replica once for each inference engine, engine by engine.
abbrev pub engine_replicas : ℕ → List ParameterReplicaMeta → List (ℕ × ParameterReplicaMeta)
engine_replicas engines replicas =
    List.flat_map (λ engine. map (λ replica. (engine, replica)) replicas) (range 0 engines 1)

-- The rank that restricts the inference side, where the wanted rank is an inference rank.
abbrev pub infer_wanted : TransferPlanBuilder → Option ℕ → Option ℕ
infer_wanted builder none = none
infer_wanted builder (some rank) = if ltb rank builder.infer_world_size then some rank else none

abbrev pub train_wanted : TransferPlanBuilder → Option ℕ → Option ℕ
train_wanted builder none = none
train_wanted builder (some rank) = if ltb rank builder.infer_world_size then none else some rank

-- The operations between one inference replica and the training replica assigned to it.
unfoldable pub replica_pair_plan :
    TransferPlanBuilder
    → Option ℕ
    → ℕ
    → ParameterReplicaMeta
    → ParameterReplicaMeta
    → Outcome PlanError (List CommunicationOperation)
replica_pair_plan builder wanted engine_rank inference_replica training_replica = do
  first_shard ← or_raise (get_elem? training_replica.shards 0) index_error
  let dims = length first_shard.shape
  inference_shard_offsets ←
      create_shard_offset_for_replica builder inference_replica engine_rank true
        (infer_wanted builder wanted) dims
  training_shard_offsets ←
      create_shard_offset_for_replica builder training_replica 0 false (train_wanted builder wanted)
        dims
  regions ← find_overlapping_regions inference_shard_offsets training_shard_offsets
  Outcome.flat_map (build_region_communication_plan builder dims) regions

-- The round-robin assignment: inference replica `i` is served by training replica `i % n`.
abbrev pub assign : {A B : Type 0} → List B → ℕ → List A → List (A × Option B)
assign training i [] = []
assign training i (x ∷ xs) =
    (x, get_elem? training (i % length training)) ∷ assign training (i + 1) xs

unfoldable pub assigned_plan :
    TransferPlanBuilder
    → Option ℕ
    → (ℕ × ParameterReplicaMeta) × Option ParameterReplicaMeta
    → Outcome PlanError (List CommunicationOperation)
assigned_plan builder wanted ((engine_rank, inference_replica), training) = do
  training_replica ← or_raise training index_error
  replica_pair_plan builder wanted engine_rank inference_replica training_replica

unfoldable pub build_parameter_communication_plan :
    TransferPlanBuilder
    → Option ℕ
    → ParameterMeta
    → ParameterMeta
    → Outcome PlanError (List CommunicationOperation)
build_parameter_communication_plan builder wanted inference_meta training_meta =
    let inference_replicas = engine_replicas builder.num_infer_engines inference_meta.replicas in
    do
      raise_if (is_empty inference_replicas || is_empty training_meta.replicas) no_replicas
      Outcome.flat_map (assigned_plan builder wanted)
          (assign training_meta.replicas 0 inference_replicas)
