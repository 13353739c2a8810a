-- ===== src/Meta/Weight/Tests.antt =====
-- A weight of two ranks with one replica.
use awex.Prelude.{ℕ, ◌≡◌, refl, List, [], ◌∷◌}
use awex.Prelude.Outcome.{ok, err}
use awex.Sharding.Kind.{tp_sharding}
use awex.Meta.Weight.Records.{ParameterShardMeta, ParameterReplicaMeta, ParameterMeta}
use awex.Meta.Weight.Local.{
  several_in_replica, fast_copy_with_engine_rank, keep_replica, to_local_parameter_meta,
  compute_total_model_size,
}
use awex.Meta.Weight.LocalLaws.{IsLocal, to_local_parameter_meta-IsLocal}

abbrev shard : ℕ → ParameterShardMeta
shard rank = record {
  tp_rank = rank;
  attn_tp_rank = rank;
  pp_rank = 0;
  ep_rank = 0;
  ep_tp_rank = 0;
  global_rank = rank;
  world_size = 2;
  engine_rank = 3;
  name = "w";
  shape = 2 ∷ [];
  numel = 2;
  dtype = "bfloat16";
  global_offset = 0 ∷ [];
  sharding_type = tp_sharding;
  num_shards = 2;
  sharding_dim = 0;
  cp_rank = 0;
  cp_size = 1;
  cp_mode = "none";
}

abbrev meta : List ParameterShardMeta → List ParameterReplicaMeta → ParameterMeta
meta shards replicas = record {
  name = "w";
  global_numel = 4;
  global_shape = 4 ∷ [];
  dtype = "bfloat16";
  shards = shards;
  replicas = replicas;
}

abbrev replica : List ParameterShardMeta → ParameterReplicaMeta
replica shards = record { shards = shards }

abbrev whole : ParameterMeta
whole = meta (shard 0 ∷ shard 1 ∷ []) (replica (shard 0 ∷ shard 1 ∷ []) ∷ [])

abbrev of_rank_1 : ParameterMeta
of_rank_1 = meta (shard 1 ∷ []) (replica (shard 1 ∷ []) ∷ [])

local_of_rank_1 : to_local_parameter_meta whole 1 ≡ ok of_rank_1
unfolding to_local_parameter_meta fast_copy_with_engine_rank keep_replica
local_of_rank_1 = refl

local_elsewhere : to_local_parameter_meta whole 7 ≡ ok (meta [] [])
unfolding to_local_parameter_meta fast_copy_with_engine_rank keep_replica
local_elsewhere = refl

twice_in_replica :
    to_local_parameter_meta (meta (shard 1 ∷ []) (replica (shard 1 ∷ shard 1 ∷ []) ∷ [])) 1
    ≡ err several_in_replica
unfolding to_local_parameter_meta fast_copy_with_engine_rank keep_replica
twice_in_replica = refl

total_size : compute_total_model_size (λ dtype. 2) (whole ∷ whole ∷ []) ≡ 16
unfolding compute_total_model_size
total_size = refl

to_local_parameter_meta-IsLocal_example : IsLocal 1 whole of_rank_1
to_local_parameter_meta-IsLocal_example =
    to_local_parameter_meta-IsLocal whole of_rank_1 1 local_of_rank_1
