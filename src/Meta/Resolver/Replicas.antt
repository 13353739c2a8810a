-- ===== src/Meta/Resolver/Replicas.antt =====
-- awex/meta/meta_resolver.py: the second loop of `_build_params_meta`, which groups the shards of a
-- parameter into replicas.
use awex.Prelude.{
  ℕ, zero, suc, Bool, true, ◌&&◌, List, [], ◌∷◌, ◌++◌, map, leb, length, get_elem?, ◌==◌,
  if◌then◌else◌,
}
use awex.Prelude.Sort.{sort}
use awex.Prelude.Outcome
use awex.Prelude.Outcome.{Outcome, ok, err, ◌>>=◌, ◌>>◌, require, or_raise}
use awex.Sharding.Kind.{
  ShardingType, no_sharding, tp_sharding, dp_tp_sharding, ep_sharding, ep_tp_sharding,
}
use awex.Meta.Weight.{ParameterShardMeta}

-- The assertions of the loop, and Python's `IndexError`.
pub data ResolverError : Type 0 where
  inconsistent_replicas : ResolverError
  replica_out_of_range : ResolverError
  index_error : ResolverError

-- A shard object. The number tells objects apart that have equal fields.
abbrev pub ShardObject : Type 0
ShardObject = ℕ × ParameterShardMeta

-- `rank_to_shards`, in insertion order.
abbrev pub RankDict : Type 0
RankDict = List (ℕ × List ShardObject)

abbrev pub append_shard : ℕ → ShardObject → RankDict → RankDict
append_shard rank shard [] = (rank, shard ∷ []) ∷ []
append_shard rank shard ((r, shards) ∷ rest) =
    let later = append_shard rank shard rest in
    if r == rank then (r, shards ++ shard ∷ []) ∷ rest else (r, shards) ∷ later

unfoldable pub rank_to_shards : (ParameterShardMeta → ℕ) → RankDict → List ShardObject → RankDict
rank_to_shards rank_key dict [] = dict
rank_to_shards rank_key dict ((i, shard) ∷ shards) =
    rank_to_shards rank_key (append_shard (rank_key shard) (i, shard) dict) shards

abbrev pub ranks : RankDict → List ℕ
ranks [] = []
ranks ((r, _) ∷ rest) = r ∷ ranks rest

abbrev pub shards_at : ℕ → RankDict → List ShardObject
shards_at rank [] = []
shards_at rank ((r, shards) ∷ rest) = if r == rank then shards else shards_at rank rest

abbrev pub all_counts : ℕ → RankDict → Bool
all_counts count [] = true
all_counts count ((_, shards) ∷ rest) = length shards == count && all_counts count rest

-- `replica_counts[0]`
abbrev pub first_count : RankDict → Outcome ResolverError ℕ
first_count [] = err index_error
first_count ((_, shards) ∷ rest) = ok (length shards)

abbrev pub tp_rank_le : ShardObject → ShardObject → Bool
tp_rank_le (_, a) (_, b) = leb a.tp_rank b.tp_rank

-- One shard of each rank, the one with this number, for the ranks in ascending order.
abbrev pub pick_shards : RankDict → ℕ → List ℕ → Outcome ResolverError (List ShardObject)
pick_shards dict replica_idx [] = ok []
pick_shards dict replica_idx (rank ∷ rest) = do
  shard ← or_raise (get_elem? (shards_at rank dict) replica_idx) replica_out_of_range
  others ← pick_shards dict replica_idx rest
  ok (shard ∷ others)

unfoldable pub replica_at : RankDict → ℕ → Outcome ResolverError (List (List ShardObject))
replica_at dict replica_idx = do
  replica ← pick_shards dict replica_idx (sort leb (ranks dict))
  ok (sort tp_rank_le replica ∷ [])

abbrev pub replica_indices : ℕ → ℕ → List ℕ
replica_indices i zero = []
replica_indices i (suc n) = i ∷ replica_indices (suc i) n

unfoldable pub grouped_replicas :
    (ParameterShardMeta → ℕ) → List ShardObject → Outcome ResolverError (List (List ShardObject))
grouped_replicas rank_key shards =
    let dict = rank_to_shards rank_key [] shards in
    do
      num_replicas ← first_count dict
      require (all_counts num_replicas dict) inconsistent_replicas
      Outcome.flat_map (replica_at dict) (replica_indices 0 num_replicas)

abbrev pub singleton : ShardObject → List ShardObject
singleton shard = shard ∷ []

-- The replicas of one parameter, by how it is sharded.
unfoldable pub build_replicas :
    ShardingType → ℕ → List ShardObject → Outcome ResolverError (List (List ShardObject))
build_replicas no_sharding num_shards shards = ok (map singleton shards)
build_replicas tp_sharding num_shards shards =
    if num_shards == 1 then ok (shards ∷ []) else grouped_replicas (λ s. s.tp_rank) shards
build_replicas dp_tp_sharding num_shards shards =
    if num_shards == 1 then ok (shards ∷ []) else grouped_replicas (λ s. s.attn_tp_rank) shards
build_replicas ep_tp_sharding num_shards shards =
    if num_shards == 1 then ok (shards ∷ []) else grouped_replicas (λ s. s.ep_tp_rank) shards
build_replicas ep_sharding num_shards shards =
    if num_shards == 1 then ok (shards ∷ []) else grouped_replicas (λ s. s.ep_rank) shards
