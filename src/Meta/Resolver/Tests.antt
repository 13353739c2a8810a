-- ===== src/Meta/Resolver/Tests.antt =====
-- The metadata of a model with two ranks: a weight that is cut along its second dimension, and a
-- bias that each rank has whole.
use text.Mathlib.Text.{◌==◌ as str_eq}
use awex.Prelude.{ℕ, ◌≡◌, refl, false, List, [], ◌∷◌, arith, if◌then◌else◌}
use awex.Prelude.Loops.{count}
use awex.Prelude.Sort.{sort}
use awex.Prelude.Outcome.{ok}
use awex.Sharding.Kind.{no_sharding, tp_sharding}
use awex.Sharding.RankInfo.{RankInfo}
use awex.Meta.Weight.{ParameterShardMeta}
use awex.Meta.Resolver.Replicas.{
  ShardObject, rank_to_shards, replica_at, grouped_replicas, build_replicas,
}
use awex.Meta.Resolver.Offsets.{global_shape_from, advance, place_shards}
use awex.Meta.Resolver.Placement.{object_covers}
use awex.Meta.Resolver.GlobalShape.{replica-tiles}
use awex.Transfer.Plan.Regions.Boxes.{in_box}
use awex.Meta.Resolver.Build.{
  RawParam, RankMeta, GetShardingInfo, shard_info, param_shards, group_param, resolve_param,
  build_params_meta,
}

abbrev rank_info : ℕ → RankInfo
rank_info rank = record {
  tp_rank = rank;
  tp_size = 2;
  pp_rank = 0;
  pp_size = 1;
  dp_size = 1;
  dp_rank = 0;
  ep_rank = 0;
  ep_size = 1;
  ep_tp_rank = 0;
  ep_tp_size = 1;
  attn_tp_rank = rank;
  attn_tp_size = 2;
  attn_dp_rank = 0;
  world_size = 2;
  global_rank = rank;
  local_rank = rank;
  engine_rank = 0;
  is_infer = false;
  cp_rank = 0;
  cp_size = 1;
  cp_mode = "none";
}

abbrev weight : RawParam
weight = record { name = "weight"; shape = 2 ∷ 2 ∷ []; numel = 4; dtype = "bfloat16" }

abbrev bias : RawParam
bias = record { name = "bias"; shape = 4 ∷ []; numel = 4; dtype = "bfloat16" }

abbrev sharding : GetShardingInfo
sharding name info param_meta =
    if str_eq name "weight" then (tp_sharding, 1, 2) else (no_sharding, 0, 1)

abbrev reported : ℕ → RankMeta
reported rank = record { rank_info = rank_info rank; params_meta = weight ∷ bias ∷ [] }

abbrev placed : RawParam → ℕ → List ℕ → ParameterShardMeta
placed param_meta rank offset = record (shard_info sharding (rank_info rank) param_meta) {
  global_offset = offset;
}

abbrev weight_shards : List ParameterShardMeta
weight_shards = placed weight 0 (0 ∷ 0 ∷ []) ∷ placed weight 1 (0 ∷ 2 ∷ []) ∷ []

-- The ranks report out of order: the replica is sorted, the list of all shards is not.
build_params_meta_test :
    build_params_meta sharding (reported 1 ∷ reported 0 ∷ [])
    ≡ ok (
        (record {
          name = "weight";
          global_numel = 8;
          global_shape = 2 ∷ 4 ∷ [];
          dtype = "bfloat16";
          shards = placed weight 1 (0 ∷ 2 ∷ []) ∷ placed weight 0 (0 ∷ 0 ∷ []) ∷ [];
          replicas = (record { shards = weight_shards }) ∷ [];
        })
        ∷ (record {
          name = "bias";
          global_numel = 4;
          global_shape = 4 ∷ [];
          dtype = "bfloat16";
          shards = placed bias 1 (0 ∷ []) ∷ placed bias 0 (0 ∷ []) ∷ [];
          replicas =
              (record { shards = placed bias 1 (0 ∷ []) ∷ [] })
              ∷ (record { shards = placed bias 0 (0 ∷ []) ∷ [] })
              ∷ [];
        })
        ∷ [])
unfolding build_params_meta param_shards group_param resolve_param build_replicas grouped_replicas
    replica_at rank_to_shards global_shape_from place_shards advance sort
build_params_meta_test = refl

abbrev unplaced : ℕ → ShardObject
unplaced rank = (rank, shard_info sharding (rank_info rank) weight)

-- The two shards of the weight have two rows and are cut along the columns.
replica-tiles_example :
    (global_shape : List ℕ) × (objects : List ShardObject) × (global_shape_from 1
        (unplaced 0 ∷ unplaced 1 ∷ [])
        0
        2
      ≡ ok global_shape)
    × (place_shards 1 (0 ∷ 0 ∷ []) (unplaced 0 ∷ unplaced 1 ∷ []) ≡ ok objects)
    × ((cell : List ℕ)
        → count (object_covers cell) objects
          ≡ (if in_box (0 ∷ 0 ∷ []) global_shape cell then 1 else 0))
replica-tiles_example =
    replica-tiles 1 (2 ∷ 0 ∷ []) (unplaced 0) (unplaced 1 ∷ []) (omega arith)
      ((2, refl), ((2, refl), tt))
