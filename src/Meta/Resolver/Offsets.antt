-- ===== src/Meta/Resolver/Offsets.antt =====
-- awex/meta/meta_resolver.py: the third loop of `_build_params_meta`: the global shape of a
-- parameter, and the offsets of the shards of a replica.
use awex.Prelude.{
  ℕ, zero, suc, ◌+◌, Option, none, some, List, [], ◌∷◌, get_elem?, ◌==◌, set, if◌then◌else◌,
}
use awex.Prelude.Outcome.{Outcome, ok, err, ◌>>=◌, or_raise}
use awex.Meta.Resolver.Replicas.{ShardObject, ResolverError, index_error}

-- `sum(shard.shape[i] for shard in replica)`
abbrev pub sum_dim : ℕ → List ShardObject → Outcome ResolverError ℕ
sum_dim i [] = ok 0
sum_dim i ((_, shard) ∷ replica) = do
  n ← or_raise (get_elem? shard.shape i) index_error
  rest ← sum_dim i replica
  ok (n + rest)

-- `replica[0].shape[i]`
abbrev pub first_dim : ℕ → List ShardObject → Outcome ResolverError ℕ
first_dim i [] = err index_error
first_dim i ((_, shard) ∷ replica) = or_raise (get_elem? shard.shape i) index_error

-- The global shape, from dimension `i` on, with `n` dimensions to go.
unfoldable pub global_shape_from : ℕ → List ShardObject → ℕ → ℕ → Outcome ResolverError (List ℕ)
global_shape_from sharding_dim first_replica i zero = ok []
global_shape_from sharding_dim first_replica i (suc n) = do
  dim ← if i == sharding_dim then sum_dim i first_replica else first_dim i first_replica
  rest ← global_shape_from sharding_dim first_replica (i + 1) n
  ok (dim ∷ rest)

-- `prev_offsets[i] += shard.shape[i]` for the sharding dimension, if the offsets have it. The other
-- entries are written back as they are.
abbrev pub advance_entry : ℕ → List ℕ → List ℕ → Option ℕ → Outcome ResolverError (List ℕ)
advance_entry sharding_dim prev_offsets shape none = ok prev_offsets
advance_entry sharding_dim prev_offsets shape (some prev) = do
  n ← or_raise (get_elem? shape sharding_dim) index_error
  ok (set prev_offsets sharding_dim (prev + n))

unfoldable pub advance : ℕ → List ℕ → List ℕ → Outcome ResolverError (List ℕ)
advance sharding_dim prev_offsets shape =
    advance_entry sharding_dim prev_offsets shape (get_elem? prev_offsets sharding_dim)

unfoldable pub place_shards :
    ℕ → List ℕ → List ShardObject → Outcome ResolverError (List ShardObject)
unfolding advance
place_shards sharding_dim prev_offsets [] = ok []
place_shards sharding_dim prev_offsets ((i, shard) ∷ replica) = do
  next_offsets ← advance sharding_dim prev_offsets shard.shape
  placed ← place_shards sharding_dim next_offsets replica
  ok ((i, record shard { global_offset = prev_offsets }) ∷ placed)
