-- ===== src/Transfer/Plan/Defs.antt =====
-- awex/transfer/transfer_plan.py: the records of a plan, the builder's state and its exceptions.
use awex.Prelude.{ℕ, zero, suc, ◌+◌, ◌/◌, String, Bool, List}
use awex.Prelude.Int.{ℤ}
use awex.Prelude.Outcome.{Outcome, ok, err}
use awex.Meta.Weight.{ParameterShardMeta}

-- A `slice(start, stop)`.
pub record Slice : Type 0 where
  pub start : ℕ
  pub stop : ℕ

pub record CommunicationOperation : Type 0 where
  pub send_rank : ℕ
  pub send_shard_meta : ParameterShardMeta
  pub send_offset : List ℕ
  pub recv_rank : ℕ
  pub recv_shard_meta : ParameterShardMeta
  pub recv_offset : List ℕ
  pub overlap_shape : List ℕ
  pub train_slices : List Slice
  pub inf_slices : List Slice
  pub pp_rank : ℕ
  pub placement_version : ℤ
  pub param_class : String
  pub send_tensor_span_numels : List ℕ

pub record ShardOffset : Type 0 where
  pub shard : ParameterShardMeta
  pub start_offset : List ℕ
  pub end_offset : List ℕ
  pub shape : List ℕ
  pub rank : ℕ

pub record OverlapRegion : Type 0 where
  pub inference_shard : ShardOffset
  pub training_shard : ShardOffset
  pub overlap_start : List ℕ
  pub overlap_end : List ℕ

-- What the builder raises: its `ValueError`s, its assertions, and Python's `IndexError`.
pub data PlanError : Type 0 where
  engines_not_positive : PlanError
  key_mismatch : PlanError
  no_replicas : PlanError
  no_shards : PlanError
  empty_global_offset : PlanError
  dimension_mismatch : PlanError
  training_engine_rank : PlanError
  same_rank : PlanError
  send_rank_outside : PlanError
  recv_rank_outside : PlanError
  foreign_operation : PlanError
  index_error : PlanError

-- `TransferPlanBuilder` after `__init__`.
pub record TransferPlanBuilder : Type 0 where
  pub train_world_size : ℕ
  pub infer_world_size : ℕ
  pub world_size : ℕ
  pub infer_instance_world_size : ℕ
  pub num_infer_engines : ℕ
  pub enable_debug_mode : Bool
  pub strict_param_key_match : Bool

unfoldable pub init_builder : ℕ → ℕ → ℕ → Bool → Bool → Outcome PlanError TransferPlanBuilder
init_builder infer_world train_world zero debug strict = err engines_not_positive
init_builder infer_world train_world (suc e) debug strict = ok (record {
  train_world_size = train_world;
  infer_world_size = infer_world;
  world_size = train_world + infer_world;
  infer_instance_world_size = infer_world / suc e;
  num_infer_engines = suc e;
  enable_debug_mode = debug;
  strict_param_key_match = strict;
})
