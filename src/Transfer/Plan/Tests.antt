-- ===== src/Transfer/Plan/Tests.antt =====
-- A parameter of shape 2 × 4: two inference ranks hold a row each, two training ranks hold two
-- columns each. The plan for it, and the theorems at it.
use mathlib.Core.List.{flat_map, Perm}
use awex.Prelude.Range.{range}
use awex.Transfer.Plan.Coverage.Total.{IsWellFormed, replica_pair_plan_total}
use awex.Transfer.Plan.Grouping.{group_operations_by_rank-IsSorted}
use awex.Transfer.Plan.Pruning.Pairs.{is_wanted}
use awex.Transfer.Plan.Pruning.Whole.{build_weights_mapping_operations-pruned}
use awex.Transfer.Plan.Alignment.{
  peer_key, build_local_transfer_plan-content, build_local_transfer_plan-aligned,
}
use awex.Prelude.{
  ◌==◌, ◌<◌, Bool, leb, ℕ, ◌≡◌, ◌+◌, refl, true, false, none, some, List, [], ◌∷◌, filter, length,
  arith,
}
use awex.Prelude.Int.{negsuc}
use awex.Prelude.Sort.{sort, IsSorted}
use awex.Prelude.Outcome.{ok, err}
use awex.Sharding.Kind.{no_sharding}
use awex.Meta.Weight.{ParameterShardMeta, ParameterReplicaMeta, ParameterMeta}
use awex.Transfer.Plan.Defs.{
  Slice, CommunicationOperation, TransferPlanBuilder, init_builder, engines_not_positive, same_rank,
}
use awex.Transfer.Plan.Regions.{
  overlap_dims, overlap_region, find_overlapping_regions, region_operation,
  build_region_communication_plan,
}
use awex.Transfer.Plan.Build.{
  shard_offset, create_shard_offset_for_replica, replica_pair_plan, assigned_plan,
  build_parameter_communication_plan, meta_dict, keys_mismatch, common_params, named_plan,
  build_weights_mapping_operations,
}
use awex.Transfer.Plan.Local.{
  TransferPlan, ops_at, op_le, peer_keys, get_key, is_local, build_local_transfer_plan,
  group_operations_by_rank, recv_rank_key, post_init,
}

abbrev builder : TransferPlanBuilder
builder = record {
  train_world_size = 2;
  infer_world_size = 2;
  world_size = 4;
  infer_instance_world_size = 2;
  num_infer_engines = 1;
  enable_debug_mode = false;
  strict_param_key_match = false;
}

init_builds : init_builder 2 2 1 false false ≡ ok builder
unfolding init_builder
init_builds = refl

init_without_engines : init_builder 2 2 0 false false ≡ err engines_not_positive
unfolding init_builder
init_without_engines = refl

abbrev shard : ℕ → List ℕ → List ℕ → ParameterShardMeta
shard rank shape offset = record {
  tp_rank = rank;
  attn_tp_rank = rank;
  pp_rank = 0;
  ep_rank = 0;
  ep_tp_rank = 0;
  global_rank = rank;
  world_size = 2;
  engine_rank = 0;
  name = "w";
  shape = shape;
  numel = 4;
  dtype = "bfloat16";
  global_offset = offset;
  sharding_type = no_sharding;
  num_shards = 2;
  sharding_dim = 0;
  cp_rank = 0;
  cp_size = 1;
  cp_mode = "none";
}

abbrev row_0 : ParameterShardMeta
row_0 = shard 0 (1 ∷ 4 ∷ []) (0 ∷ 0 ∷ [])

abbrev row_1 : ParameterShardMeta
row_1 = shard 1 (1 ∷ 4 ∷ []) (1 ∷ 0 ∷ [])

abbrev left : ParameterShardMeta
left = shard 0 (2 ∷ 2 ∷ []) (0 ∷ 0 ∷ [])

abbrev right : ParameterShardMeta
right = shard 1 (2 ∷ 2 ∷ []) (0 ∷ 2 ∷ [])

abbrev rows : ParameterReplicaMeta
rows = record { shards = row_0 ∷ row_1 ∷ [] }

abbrev columns : ParameterReplicaMeta
columns = record { shards = left ∷ right ∷ [] }

abbrev param : ParameterReplicaMeta → ParameterMeta
param replica = record {
  name = "w";
  global_numel = 8;
  global_shape = 2 ∷ 4 ∷ [];
  dtype = "bfloat16";
  shards = replica.shards;
  replicas = replica ∷ [];
}

abbrev slice : ℕ → ℕ → Slice
slice start stop = record { start = start; stop = stop }

-- The half row at `train_offset` of the sender and at `inf_offset` of the receiver.
abbrev half_row : ℕ → ParameterShardMeta → ℕ → ℕ → ParameterShardMeta → ℕ → CommunicationOperation
half_row send_rank sender row recv_rank receiver column = record {
  send_rank = send_rank;
  send_shard_meta = sender;
  send_offset = row ∷ 0 ∷ [];
  recv_rank = recv_rank;
  recv_shard_meta = receiver;
  recv_offset = 0 ∷ column ∷ [];
  overlap_shape = 1 ∷ 2 ∷ [];
  train_slices = slice row (row + 1) ∷ slice 0 2 ∷ [];
  inf_slices = slice 0 1 ∷ slice column (column + 2) ∷ [];
  pp_rank = 0;
  placement_version = negsuc 0;
  param_class = "dense_other";
  send_tensor_span_numels = [];
}

abbrev all_ops : List CommunicationOperation
all_ops =
    half_row 2 left 0 0 row_0 0
    ∷ half_row 3 right 0 0 row_0 2
    ∷ half_row 2 left 1 1 row_1 0
    ∷ half_row 3 right 1 1 row_1 2
    ∷ []

whole_plan :
    build_weights_mapping_operations builder (param rows ∷ []) (param columns ∷ []) none
    ≡ ok all_ops
unfolding build_weights_mapping_operations named_plan meta_dict keys_mismatch common_params
    build_parameter_communication_plan assigned_plan replica_pair_plan
    create_shard_offset_for_replica shard_offset find_overlapping_regions overlap_region
    overlap_dims build_region_communication_plan region_operation sort flat_map range
whole_plan = refl

-- With a second engine the inference world has no rank for its replica, which meets a sender's.
second_engine : replica_pair_plan builder none 1 rows columns ≡ err same_rank
unfolding replica_pair_plan create_shard_offset_for_replica shard_offset find_overlapping_regions
    overlap_region overlap_dims build_region_communication_plan region_operation
second_engine = refl

abbrev sends : TransferPlan
sends =
    post_init false []
      ((0, half_row 2 left 0 0 row_0 0 ∷ []) ∷ (1, half_row 2 left 1 1 row_1 0 ∷ []) ∷ [])

sends_plan : build_local_transfer_plan builder (param rows ∷ []) (param columns ∷ []) 2 ≡ ok sends
unfolding build_local_transfer_plan build_weights_mapping_operations named_plan meta_dict
    keys_mismatch common_params build_parameter_communication_plan assigned_plan replica_pair_plan
    create_shard_offset_for_replica shard_offset find_overlapping_regions overlap_region
    overlap_dims build_region_communication_plan region_operation sort flat_map range
    group_operations_by_rank
sends_plan = refl

abbrev receives : TransferPlan
receives =
    post_init false []
      ((2, half_row 2 left 1 1 row_1 0 ∷ []) ∷ (3, half_row 3 right 1 1 row_1 2 ∷ []) ∷ [])

receives_plan :
    build_local_transfer_plan builder (param rows ∷ []) (param columns ∷ []) 1 ≡ ok receives
unfolding build_local_transfer_plan build_weights_mapping_operations named_plan meta_dict
    keys_mismatch common_params build_parameter_communication_plan assigned_plan replica_pair_plan
    create_shard_offset_for_replica shard_offset find_overlapping_regions overlap_region
    overlap_dims build_region_communication_plan region_operation sort flat_map range
    group_operations_by_rank
receives_plan = refl

build_weights_mapping_operations-pruned_example :
    build_weights_mapping_operations builder (param rows ∷ []) (param columns ∷ []) (some 3)
    ≡ ok (filter (is_wanted builder (some 3)) all_ops)
build_weights_mapping_operations-pruned_example =
    build_weights_mapping_operations-pruned builder (some 3) (param rows ∷ []) (param columns ∷ [])
      all_ops whole_plan

build_local_transfer_plan-content_example :
    (plan : TransferPlan) × (build_local_transfer_plan builder
        (param rows ∷ [])
        (param columns ∷ [])
        2
      ≡ ok plan)
    × ((peer : ℕ)
        → ops_at peer plan.inter_operations
          ≡ sort op_le (
              filter
                (λ op. get_key (peer_key builder 2) op == peer)
                (filter (is_local builder 2) all_ops)))
build_local_transfer_plan-content_example =
    build_local_transfer_plan-content builder (param rows ∷ []) (param columns ∷ []) all_ops
      whole_plan 2

build_local_transfer_plan-aligned_example :
    ops_at 1 sends.inter_operations ≡ ops_at 2 receives.inter_operations
build_local_transfer_plan-aligned_example =
    build_local_transfer_plan-aligned builder (param rows ∷ []) (param columns ∷ []) all_ops
      whole_plan 2 1 sends receives (omega arith) (omega arith) sends_plan receives_plan

abbrev well_formed :
    (shape offset : List ℕ) (rank : ℕ)
    → length shape ≡ 2
    → length offset ≡ 2
    → rank < 2
    → (is_infer : Bool) → IsWellFormed builder 2 0 is_infer (shard rank shape offset)
well_formed shape offset rank p q r is_infer = record {
  shape_dims = p;
  offset_dims = q;
  in_world = λ _. omega arith;
}

replica_pair_plan_total_example :
    (ops : List CommunicationOperation) × (replica_pair_plan builder none 0 rows columns ≡ ok ops)
replica_pair_plan_total_example =
    replica_pair_plan_total builder 0 1 rows columns (λ e. cc) (λ e. cc)
      (
        well_formed (1 ∷ 4 ∷ []) (0 ∷ 0 ∷ []) 0 refl refl (omega arith) true,
        (well_formed (1 ∷ 4 ∷ []) (1 ∷ 0 ∷ []) 1 refl refl (omega arith) true, tt),
      )
      (
        well_formed (2 ∷ 2 ∷ []) (0 ∷ 0 ∷ []) 0 refl refl (omega arith) false,
        (well_formed (2 ∷ 2 ∷ []) (0 ∷ 2 ∷ []) 1 refl refl (omega arith) false, tt),
      )

group_operations_by_rank-IsSorted_example :
    IsSorted op_le (ops_at 0 (group_operations_by_rank all_ops recv_rank_key))
    × Perm
        (ops_at 0 (group_operations_by_rank all_ops recv_rank_key))
        (filter (λ op. get_key recv_rank_key op == 0) all_ops)
    × IsSorted leb (peer_keys (group_operations_by_rank all_ops recv_rank_key))
group_operations_by_rank-IsSorted_example =
    group_operations_by_rank-IsSorted recv_rank_key 0 all_ops
