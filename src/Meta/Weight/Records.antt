-- ===== src/Meta/Weight/Records.antt =====
-- awex/meta/weight_meta.py: the records that describe a parameter, its replicas and its shards.
-- A `torch.dtype` is known by its name. Ranks, sizes and offsets are never negative here.
use awex.Prelude.{ℕ, String, List}
use awex.Sharding.Kind.{ShardingType}

pub record ParameterShardMeta : Type 0 where
  pub tp_rank : ℕ
  pub attn_tp_rank : ℕ
  pub pp_rank : ℕ
  pub ep_rank : ℕ
  pub ep_tp_rank : ℕ
  pub global_rank : ℕ
  pub world_size : ℕ
  pub engine_rank : ℕ
  pub name : String
  pub shape : List ℕ
  pub numel : ℕ
  pub dtype : String
  pub global_offset : List ℕ
  pub sharding_type : ShardingType
  pub num_shards : ℕ
  pub sharding_dim : ℕ
  pub cp_rank : ℕ
  pub cp_size : ℕ
  pub cp_mode : String

pub record ParameterReplicaMeta : Type 0 where
  pub shards : List ParameterShardMeta

pub record ParameterMeta : Type 0 where
  pub name : String
  pub global_numel : ℕ
  pub global_shape : List ℕ
  pub dtype : String
  pub shards : List ParameterShardMeta
  pub replicas : List ParameterReplicaMeta
