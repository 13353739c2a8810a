-- ===== src/Meta/Weight/Local.antt =====
-- awex/meta/weight_meta.py: the methods of `ParameterMeta`, and `compute_total_model_size`.
use awex.Prelude.{
  ℕ, ◌+◌, ◌*◌, String, Bool, List, [], ◌∷◌, ◌++◌, length, get_elem?, filter, leb, ◌==◌,
  if◌then◌else◌,
}
use awex.Prelude.Outcome
use awex.Prelude.Outcome.{Outcome, ok, err, ◌>>=◌, ◌>>◌, require, or_raise}
use awex.Meta.Weight.Records.{ParameterShardMeta, ParameterReplicaMeta, ParameterMeta}

-- Python's `IndexError`, and the assertions.
pub data WeightError : Type 0 where
  index_error : WeightError
  several_in_replica : WeightError
  several_shards : WeightError
  several_replicas : WeightError

abbrev pub copy_shard : ℕ → ParameterShardMeta → ParameterShardMeta
copy_shard engine_rank shard = record shard { engine_rank = engine_rank }

abbrev pub copy_shards : ℕ → List ParameterShardMeta → List ParameterShardMeta
copy_shards engine_rank [] = []
copy_shards engine_rank (shard ∷ shards) =
    copy_shard engine_rank shard ∷ copy_shards engine_rank shards

abbrev pub copy_replicas : ℕ → List ParameterReplicaMeta → List ParameterReplicaMeta
copy_replicas engine_rank [] = []
copy_replicas engine_rank (replica ∷ replicas) =
    (record { shards = copy_shards engine_rank replica.shards })
    ∷ copy_replicas engine_rank replicas

abbrev pub all_shards : List ParameterReplicaMeta → List ParameterShardMeta
all_shards [] = []
all_shards (replica ∷ replicas) = replica.shards ++ all_shards replicas

unfoldable pub fast_copy_with_engine_rank : ParameterMeta → ℕ → ParameterMeta
fast_copy_with_engine_rank self engine_rank =
    let replicas = copy_replicas engine_rank self.replicas in
    record self { shards = all_shards replicas; replicas = replicas }

abbrev pub is_on_rank : ℕ → ParameterShardMeta → Bool
is_on_rank global_rank shard = shard.global_rank == global_rank

-- The body of the loop: a replica with one shard on the rank is kept with that shard alone.
unfoldable pub keep_replica :
    ℕ → ParameterReplicaMeta → Outcome WeightError (List ParameterReplicaMeta)
keep_replica global_rank replica =
    let replica_shards = filter (is_on_rank global_rank) replica.shards in
    if length replica_shards == 1
    then ok ((record { shards = replica_shards }) ∷ [])
    else (do require (length replica_shards == 0) several_in_replica; ok [])

unfoldable pub to_local_parameter_meta : ParameterMeta → ℕ → Outcome WeightError ParameterMeta
to_local_parameter_meta self global_rank = do
  first ← or_raise (get_elem? self.shards 0) index_error
  let new_meta = fast_copy_with_engine_rank self first.engine_rank
  let shards = filter (is_on_rank global_rank) new_meta.shards
  filtered_replicas ← Outcome.flat_map (keep_replica global_rank) new_meta.replicas
  require (leb (length shards) 1) several_shards
  require (leb (length filtered_replicas) 1) several_replicas
  ok (record new_meta { shards = shards; replicas = filtered_replicas })

-- `itemsize` is the number of bytes of an element of a type.
unfoldable pub compute_total_model_size : (String → ℕ) → List ParameterMeta → ℕ
compute_total_model_size itemsize [] = 0
compute_total_model_size itemsize (param ∷ params) =
    param.global_numel * itemsize param.dtype + compute_total_model_size itemsize params
