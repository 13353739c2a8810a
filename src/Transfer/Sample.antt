-- ===== src/Transfer/Sample.antt =====
-- Operations of one parameter for the concrete runs.
use awex.Prelude.{ℕ, ◌+◌, [], ◌∷◌}
use awex.Prelude.Int.{negsuc}
use awex.Sharding.Kind.{no_sharding}
use awex.Meta.Weight.{ParameterShardMeta}
use awex.Transfer.Plan.Defs.{CommunicationOperation}

abbrev pub sample_shard : ℕ → ParameterShardMeta
sample_shard rank = record {
  tp_rank = rank;
  attn_tp_rank = rank;
  pp_rank = 0;
  ep_rank = 0;
  ep_tp_rank = 0;
  global_rank = rank;
  world_size = 4;
  engine_rank = 0;
  name = "w";
  shape = 4 ∷ [];
  numel = 4;
  dtype = "bfloat16";
  global_offset = 0 ∷ [];
  sharding_type = no_sharding;
  num_shards = 1;
  sharding_dim = 0;
  cp_rank = 0;
  cp_size = 1;
  cp_mode = "none";
}

-- The operation from one rank to another that starts at this offset.
abbrev pub sample_operation : ℕ → ℕ → ℕ → CommunicationOperation
sample_operation send_rank recv_rank offset = record {
  send_rank = send_rank;
  send_shard_meta = sample_shard send_rank;
  send_offset = offset ∷ [];
  recv_rank = recv_rank;
  recv_shard_meta = sample_shard recv_rank;
  recv_offset = offset ∷ [];
  overlap_shape = 1 ∷ [];
  train_slices = record { start = offset; stop = offset + 1 } ∷ [];
  inf_slices = record { start = offset; stop = offset + 1 } ∷ [];
  pp_rank = 0;
  placement_version = negsuc 0;
  param_class = "dense_other";
  send_tensor_span_numels = [];
}
