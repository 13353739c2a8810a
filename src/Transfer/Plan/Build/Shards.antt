-- ===== src/Transfer/Plan/Build/Shards.antt =====
-- awex/transfer/transfer_plan.py: `_compute_shard_transfer_rank`, `_create_shard_offset_for_replica`.
use awex.Prelude.{
  ℕ, ◌+◌, ◌*◌, Bool, true, false, not, Option, none, some, List, [], ◌∷◌, length, ltb, ◌==◌,
  if◌then◌else◌,
}
use awex.Prelude.Outcome
use awex.Prelude.Outcome.{Outcome, ok, err, ◌>>=◌, ◌>>◌, raise_if, require}
use awex.Meta.Weight.{ParameterShardMeta, ParameterReplicaMeta}
use awex.Transfer.Plan.Defs.{
  ShardOffset, PlanError, TransferPlanBuilder, no_shards, empty_global_offset, dimension_mismatch,
  training_engine_rank, index_error,
}
use awex.Transfer.Plan.Regions.{buffer_dims, plus}

unfoldable pub compute_shard_transfer_rank :
    TransferPlanBuilder → ParameterShardMeta → ℕ → Bool → Outcome PlanError ℕ
compute_shard_transfer_rank builder shard engine_rank true =
    ok (shard.global_rank + engine_rank * builder.infer_instance_world_size)
compute_shard_transfer_rank builder shard engine_rank false = do
  require (engine_rank == 0) training_engine_rank
  ok (shard.global_rank + builder.infer_world_size)

abbrev pub is_empty {ℓ} : {A : Type ℓ} → List A → Bool
is_empty [] = true
is_empty (x ∷ xs) = false

-- The rank that a call is restricted to, if it is.
abbrev pub selects : Option ℕ → ℕ → Bool
selects none rank = true
selects (some wanted) rank = rank == wanted

abbrev pub offset_of : ParameterShardMeta → ℕ → ShardOffset
offset_of shard rank = record {
  shard = shard;
  start_offset = shard.global_offset;
  end_offset = plus shard.global_offset shard.shape;
  shape = shard.shape;
  rank = rank;
}

-- The end offset is written into a buffer of `dims` places. What an earlier shard left in places
-- past the shard's own dimensions is never read, so it is left out of `end_offset`.
unfoldable pub place_shard : ℕ → ParameterShardMeta → ℕ → Outcome PlanError (List ShardOffset)
place_shard dims shard rank = do
  raise_if (ltb dims (length shard.global_offset)) index_error
  ok (offset_of shard rank ∷ [])

-- The body of the loop: nothing for a shard of another rank than the wanted one.
unfoldable pub shard_offset :
    TransferPlanBuilder
    → ℕ
    → Bool
    → Option ℕ
    → ℕ
    → ParameterShardMeta
    → Outcome PlanError (List ShardOffset)
unfolding compute_shard_transfer_rank place_shard
shard_offset builder engine_rank is_infer wanted dims shard = do
  raise_if (is_empty shard.global_offset) empty_global_offset
  raise_if (not (length shard.global_offset == length shard.shape)) dimension_mismatch
  rank ← compute_shard_transfer_rank builder shard engine_rank is_infer
  if selects wanted rank then place_shard dims shard rank else ok []

-- The places of the buffer. A fresh one, where the shared one has none, reads the first shard.
abbrev pub replica_dims : ℕ → List ParameterShardMeta → Outcome PlanError ℕ
replica_dims dims (shard ∷ shards) = ok (buffer_dims dims (length shard.shape))
replica_dims dims [] = err (if dims == 0 then index_error else no_shards)

unfoldable pub create_shard_offset_for_replica :
    TransferPlanBuilder
    → ParameterReplicaMeta
    → ℕ
    → Bool
    → Option ℕ
    → ℕ
    → Outcome PlanError (List ShardOffset)
create_shard_offset_for_replica builder replica engine_rank is_infer wanted dims = do
  places ← replica_dims dims replica.shards
  Outcome.flat_map (shard_offset builder engine_rank is_infer wanted places) replica.shards
