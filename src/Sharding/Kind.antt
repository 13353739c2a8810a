-- ===== src/Sharding/Kind.antt =====
-- awex/sharding/param_sharding.py: `ShardingType`.
pub data ShardingType : Type 0 where
  no_sharding : ShardingType
  tp_sharding : ShardingType
  dp_tp_sharding : ShardingType
  ep_sharding : ShardingType
  ep_tp_sharding : ShardingType
