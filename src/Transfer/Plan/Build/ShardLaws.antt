-- ===== src/Transfer/Plan/Build/ShardLaws.antt =====
-- What `_create_shard_offset_for_replica` returns where it raises nothing.
use awex.Prelude.{
  ℕ, ◌≡◌, refl, Bool, false, not, ◌&&◌, Option, none, List, [], ◌∷◌, length, ltb, ◌==◌,
  if◌then◌else◌, arith, filter, Bool-cases, inl, inr, All, All-Unit, ◌∙◌,
}
use awex.Prelude.Loops.{flat_map-filter, count-flat_map, All-flat_map, count}
use awex.Prelude.Outcome.{ok, bind-eq-ok, raise_if-eq-ok, ok-injective}
use awex.Meta.Weight.{ParameterShardMeta, ParameterReplicaMeta}
use awex.Transfer.Plan.Defs.{
  ShardOffset, TransferPlanBuilder, empty_global_offset, dimension_mismatch, index_error,
}
use awex.Transfer.Plan.Regions.{plus}
use awex.Transfer.Plan.Regions.Boxes.{in_box}
use awex.Transfer.Plan.Regions.Corners.{IsPlaced, offset_covers}
use awex.Transfer.Plan.Build.Shards.{
  compute_shard_transfer_rank, is_empty, selects, offset_of, shard_offset,
  create_shard_offset_for_replica, replica_dims,
}

pub length-plus : (xs ys : List ℕ) → length xs ≡ length ys → length (plus xs ys) ≡ length xs
length-plus [] ys h = refl
length-plus (x ∷ xs) [] h = absurd (omega arith)
length-plus (x ∷ xs) (y ∷ ys) h = omega (arith, length-plus xs ys)

-- The cells of a shard, from its metadata.
abbrev pub shard_covers : List ℕ → ParameterShardMeta → Bool
shard_covers cell s = in_box s.global_offset (plus s.global_offset s.shape) cell

-- A shard passes a test and holds a cell; the same for a placed shard.
abbrev pub shard_held : (ParameterShardMeta → Bool) → List ℕ → ParameterShardMeta → Bool
shard_held passes cell s = passes s && shard_covers cell s

abbrev pub offset_held : (ParameterShardMeta → Bool) → List ℕ → ShardOffset → Bool
offset_held passes cell o = passes o.shard && offset_covers cell o

abbrev pub HasDims : ℕ → ParameterShardMeta → Type 0
HasDims d shard = length shard.shape ≡ d

module _ (builder : TransferPlanBuilder) (engine_rank : ℕ) (is_infer : Bool) where
  -- An unrestricted call returns each shard at its rank.
  pub shard_offset-eq-ok :
      (dims : ℕ) (shard : ParameterShardMeta) (offs : List ShardOffset)
      → shard_offset builder engine_rank is_infer none dims shard ≡ ok offs
      → (rank : ℕ) × (compute_shard_transfer_rank builder shard engine_rank is_infer ≡ ok rank)
        × (length shard.global_offset ≡ length shard.shape)
        × (ltb dims (length shard.global_offset) ≡ false)
        × (is_empty shard.global_offset ≡ false)
        × (offs ≡ offset_of shard rank ∷ [])
  unfolding shard_offset
  shard_offset-eq-ok dims shard offs h =
      let (a, h1) = raise_if-eq-ok (is_empty shard.global_offset) empty_global_offset _ h in
      let (b, h2) =
        raise_if-eq-ok (not (length shard.global_offset == length shard.shape)) dimension_mismatch _
          h1 in
      let (rank, c, h3) =
        bind-eq-ok (compute_shard_transfer_rank builder shard engine_rank is_infer) _ h2 in
      let (d, h4) = raise_if-eq-ok (ltb dims (length shard.global_offset)) index_error _ h3 in
      (rank, c, ground arith, d, a, ok-injective h4)

  -- A restricted call returns the shards of the wanted rank, of those that the other returns.
  pub shard_offset-filter :
      (wanted : Option ℕ) (dims : ℕ) (shard : ParameterShardMeta) (offs : List ShardOffset)
      → shard_offset builder engine_rank is_infer none dims shard ≡ ok offs
      → shard_offset builder engine_rank is_infer wanted dims shard
        ≡ ok (filter (λ o. selects wanted o.rank) offs)
  shard_offset-filter wanted dims shard offs h =
      let (rank, c, same, room, some_dims, last) = shard_offset-eq-ok dims shard offs h in
      let same' : not (length shard.global_offset == length shard.shape) ≡ false = ground arith in
      rw last (
        unfold shard_offset in
        elim (Bool-cases (selects wanted rank)) [
          | inl t ↦ rw (some_dims, same', c, t, room)
          | inr t ↦ rw (some_dims, same', c, t)
        ])

  pub create-filter :
      (wanted : Option ℕ) (replica : ParameterReplicaMeta) (dims : ℕ) (offs : List ShardOffset)
      → create_shard_offset_for_replica builder replica engine_rank is_infer none dims ≡ ok offs
      → create_shard_offset_for_replica builder replica engine_rank is_infer wanted dims
        ≡ ok (filter (λ o. selects wanted o.rank) offs)
  unfolding create_shard_offset_for_replica
  create-filter wanted replica dims offs h =
      let (places, e, loop) = bind-eq-ok (replica_dims dims replica.shards) _ h in
      rw e (
        flat_map-filter (shard_offset builder engine_rank is_infer none places) _ _
          (λ shard ys. shard_offset-filter wanted places shard ys) replica.shards offs loop)

  module _ (d : ℕ) where
    shard_offset-IsPlaced :
        (dims : ℕ) (shard : ParameterShardMeta) (offs : List ShardOffset)
        → HasDims d shard
        → shard_offset builder engine_rank is_infer none dims shard ≡ ok offs
        → All (IsPlaced d) offs
    shard_offset-IsPlaced dims shard offs p h =
        let (rank, c, same, room, some_dims, last) = shard_offset-eq-ok dims shard offs h in
        rw last (
          record {
            start = refl;
            end = refl;
            start_dims = same ∙ p;
            end_dims = length-plus shard.global_offset shard.shape same ∙ same ∙ p;
            shape_dims = p;
          },
          tt,
        )

    pub create-IsPlaced :
        (replica : ParameterReplicaMeta) (dims : ℕ) (offs : List ShardOffset)
        → All (HasDims d) replica.shards
        → create_shard_offset_for_replica builder replica engine_rank is_infer none dims ≡ ok offs
        → All (IsPlaced d) offs
    unfolding create_shard_offset_for_replica
    create-IsPlaced replica dims offs p h =
        let (places, e, loop) = bind-eq-ok (replica_dims dims replica.shards) _ h in
        All-flat_map _ (HasDims d) (IsPlaced d) (λ shard ys. shard_offset-IsPlaced places shard ys)
          replica.shards offs p loop

  count-shard_offset :
      (passes : ParameterShardMeta → Bool) (cell : List ℕ) (dims : ℕ) (shard : ParameterShardMeta)
      (offs : List ShardOffset)
      → shard_offset builder engine_rank is_infer none dims shard ≡ ok offs
      → count (offset_held passes cell) offs ≡ (if shard_held passes cell shard then 1 else 0)
  count-shard_offset passes cell dims shard offs h =
      let (rank, c, same, room, some_dims, last) = shard_offset-eq-ok dims shard offs h in
      rw last (omega arith)

  -- The placed shards that pass a test and hold a cell are as many as those of the replica.
  pub count-create :
      (passes : ParameterShardMeta → Bool) (cell : List ℕ) (replica : ParameterReplicaMeta)
      (dims : ℕ) (offs : List ShardOffset)
      → create_shard_offset_for_replica builder replica engine_rank is_infer none dims ≡ ok offs
      → count (offset_held passes cell) offs ≡ count (shard_held passes cell) replica.shards
  unfolding create_shard_offset_for_replica
  count-create passes cell replica dims offs h =
      let (places, e, loop) = bind-eq-ok (replica_dims dims replica.shards) _ h in
      count-flat_map _ (λ _. Unit {0}) (offset_held passes cell) (shard_held passes cell) 1
        (λ shard ys _. count-shard_offset passes cell places shard ys) replica.shards offs
        (All-Unit replica.shards) loop
      ∙ omega arith
