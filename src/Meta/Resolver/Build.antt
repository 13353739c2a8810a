-- ===== src/Meta/Resolver/Build.antt =====
-- awex/meta/meta_resolver.py: `_build_params_meta` from the raw metadata of all ranks. What the
-- subclasses implement, `_get_sharding_info`, is a parameter.
use text.Mathlib.Text.{◌==◌ as str_eq}
use awex.Prelude.{
  ℕ, ◌+◌, String, List, [], ◌∷◌, ◌++◌, map, length, get_elem?, replicate, ◌==◌, if◌then◌else◌,
}
use awex.Prelude.Outcome
use awex.Prelude.Outcome.{Outcome, ok, err, ◌>>=◌, ◌>>◌, or_raise}
use awex.Sharding.Kind.{ShardingType}
use awex.Sharding.RankInfo.{RankInfo}
use awex.Meta.Weight.{ParameterShardMeta, ParameterReplicaMeta, ParameterMeta}
use awex.Meta.Resolver.Replicas.{ShardObject, ResolverError, index_error, build_replicas}
use awex.Meta.Resolver.Offsets.{global_shape_from, place_shards}

-- `param_meta` of one parameter on one rank, and what a rank reports.
pub record RawParam : Type 0 where
  pub name : String
  pub shape : List ℕ
  pub numel : ℕ
  pub dtype : String

pub record RankMeta : Type 0 where
  pub rank_info : RankInfo
  pub params_meta : List RawParam

abbrev pub GetShardingInfo : Type 0
GetShardingInfo = String → RankInfo → RawParam → ShardingType × ℕ × ℕ

abbrev pub shard_info : GetShardingInfo → RankInfo → RawParam → ParameterShardMeta
shard_info get_sharding_info rank_info param_meta =
    let (sharding_type, sharding_dim, num_shards) =
      get_sharding_info param_meta.name rank_info param_meta in
    record {
      tp_rank = rank_info.tp_rank;
      attn_tp_rank = rank_info.attn_tp_rank;
      pp_rank = rank_info.pp_rank;
      ep_rank = rank_info.ep_rank;
      ep_tp_rank = rank_info.ep_tp_rank;
      global_rank = rank_info.global_rank;
      world_size = rank_info.world_size;
      engine_rank = rank_info.engine_rank;
      name = param_meta.name;
      shape = param_meta.shape;
      numel = param_meta.numel;
      dtype = param_meta.dtype;
      global_offset = [];
      sharding_type = sharding_type;
      num_shards = num_shards;
      sharding_dim = sharding_dim;
      cp_rank = 0;
      cp_size = 1;
      cp_mode = "none";
    }

-- `param_shards`, in insertion order. A shard's number is its place in the list of its name.
abbrev pub ShardDict : Type 0
ShardDict = List (String × List ShardObject)

abbrev pub append_shard_info : ParameterShardMeta → ShardDict → ShardDict
append_shard_info shard [] = (shard.name, (0, shard) ∷ []) ∷ []
append_shard_info shard ((name, shards) ∷ rest) =
    let later = append_shard_info shard rest in
    if str_eq name shard.name
    then (name, shards ++ (length shards, shard) ∷ []) ∷ rest
    else (name, shards) ∷ later

abbrev pub collect_params : GetShardingInfo → RankInfo → ShardDict → List RawParam → ShardDict
collect_params get_sharding_info rank_info dict [] = dict
collect_params get_sharding_info rank_info dict (param_meta ∷ rest) =
    collect_params get_sharding_info rank_info
      (append_shard_info (shard_info get_sharding_info rank_info param_meta) dict) rest

-- The first loop.
unfoldable pub param_shards : GetShardingInfo → ShardDict → List RankMeta → ShardDict
param_shards get_sharding_info dict [] = dict
param_shards get_sharding_info dict (rank_meta ∷ rest) =
    param_shards get_sharding_info
      (collect_params get_sharding_info rank_meta.rank_info dict rank_meta.params_meta) rest

-- The shard that was appended last: `param_sharding_info` holds what it was given.
abbrev pub last_shard : List ShardObject → Outcome ResolverError ParameterShardMeta
last_shard [] = err index_error
last_shard ((_, shard) ∷ []) = ok shard
last_shard (_ ∷ shard ∷ shards) = last_shard (shard ∷ shards)

pub record Grouped : Type 0 where
  pub name : String
  pub shards : List ShardObject
  pub replicas : List (List ShardObject)

unfoldable pub group_param : String × List ShardObject → Outcome ResolverError (List Grouped)
group_param (name, shards) = do
  last ← last_shard shards
  replicas ← build_replicas last.sharding_type last.num_shards shards
  ok ((record { name = name; shards = shards; replicas = replicas }) ∷ [])

abbrev pub sum_numel : List ShardObject → ℕ
sum_numel [] = 0
sum_numel ((_, shard) ∷ replica) = shard.numel + sum_numel replica

-- The object with this number, as the loop over the replicas has left it.
abbrev pub written : ShardObject → List ShardObject → ParameterShardMeta
written (number, shard) [] = shard
written (number, shard) ((i, placed) ∷ objects) =
    written (number, if i == number then placed else shard) objects

abbrev pub written_all : List ShardObject → List ShardObject → List ParameterShardMeta
written_all [] objects = []
written_all (shard ∷ shards) objects = written shard objects ∷ written_all shards objects

abbrev pub objects : List (List ShardObject) → List ShardObject
objects [] = []
objects (replica ∷ replicas) = replica ++ objects replicas

abbrev pub shard_of : ShardObject → ParameterShardMeta
shard_of (_, shard) = shard

abbrev pub replica_meta : List ShardObject → ParameterReplicaMeta
replica_meta replica = record { shards = map shard_of replica }

abbrev pub place_replica :
    ℕ → ℕ → List ShardObject → Outcome ResolverError (List (List ShardObject))
place_replica sharding_dim num_dims replica = do
  placed ← place_shards sharding_dim (replicate num_dims 0) replica
  ok (placed ∷ [])

-- The body of the third loop.
unfoldable pub resolve_param : Grouped → Outcome ResolverError (List ParameterMeta)
resolve_param grouped = do
  (_, first) ← or_raise (get_elem? grouped.shards 0) index_error
  first_replica ← or_raise (get_elem? grouped.replicas 0) index_error
  global_shape ← global_shape_from first.sharding_dim first_replica 0 (length first.shape)
  placed ← Outcome.flat_map (place_replica first.sharding_dim (length first.shape)) grouped.replicas
  ok (
      (record {
        name = grouped.name;
        global_numel = sum_numel first_replica;
        global_shape = global_shape;
        dtype = first.dtype;
        shards = written_all grouped.shards (objects placed);
        replicas = map replica_meta placed;
      })
      ∷ [])

unfoldable pub build_params_meta :
    GetShardingInfo → List RankMeta → Outcome ResolverError (List ParameterMeta)
build_params_meta get_sharding_info all_params_raw_meta = do
  replicas ← Outcome.flat_map group_param (param_shards get_sharding_info [] all_params_raw_meta)
  Outcome.flat_map resolve_param replicas
