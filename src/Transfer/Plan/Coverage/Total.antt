-- ===== src/Transfer/Plan/Coverage/Total.antt =====
-- awex/transfer/transfer_plan.py: well-formed replicas have a plan.
use awex.Prelude.{
  ℕ, suc, ◌+◌, ◌*◌, ◌≡◌, ◌≢◌, ◌≤◌, ◌<◌, refl, Bool, true, false, not, none, some, List, [], ◌∷◌,
  min, max, length, get_elem?, leb, ltb, ◌==◌, arith, ap, ◌∙◌, sym, Bool-cases, inl, inr, All,
}
use awex.Prelude.Loops.{flat_map_total}
use awex.Prelude.Outcome.{ok}
use awex.Meta.Weight.{ParameterShardMeta, ParameterReplicaMeta}
use awex.Transfer.Plan.Defs.{
  CommunicationOperation, ShardOffset, OverlapRegion, TransferPlanBuilder,
}
use awex.Transfer.Plan.Regions.{
  Bounds, put_bounds, overlap_dims, overlap_region, to_region, find_overlapping_regions,
  region_operation, build_region_communication_plan, buffer_dims,
}
use awex.Transfer.Plan.Regions.Corners.{IsPlaced}
use awex.Transfer.Plan.Build.{
  is_empty, offset_of, shard_offset, create_shard_offset_for_replica, replica_pair_plan,
  replica_dims,
}
use awex.Transfer.Plan.Build.ShardLaws.{length-plus}

-- A shard of `d` dimensions whose offset has as many, and whose inference rank, if it is an
-- inference shard, lies in the inference world.
pub record IsWellFormed (builder : TransferPlanBuilder) (d engine_rank : ℕ) (is_infer : Bool)
    (shard : ParameterShardMeta) : Type 0 where
  pub shape_dims : length shard.shape ≡ d
  pub offset_dims : length shard.global_offset ≡ d
  pub in_world :
      (is_infer ≡ true)
      → shard.global_rank + engine_rank * builder.infer_instance_world_size
        < builder.infer_world_size

-- A placed shard on its side of the transfer.
abbrev IsOnSide : TransferPlanBuilder → ℕ → Bool → ShardOffset → Type 0
IsOnSide builder d true o =
    IsPlaced d o × (o.rank < builder.infer_world_size) × (length o.shape ≡ d)
IsOnSide builder d false o =
    IsPlaced d o × (builder.infer_world_size ≤ o.rank) × (length o.shape ≡ d)

not_empty : (xs : List ℕ) (n : ℕ) → length xs ≡ suc n → is_empty xs ≡ false
not_empty [] n h = absurd (omega arith)
not_empty (x ∷ xs) n h = refl

module _ (builder : TransferPlanBuilder) (n : ℕ) where
  place :
      (shard : ParameterShardMeta) (rank : ℕ)
      → length shard.shape ≡ suc n
      → length shard.global_offset ≡ suc n
      → IsPlaced (suc n) (offset_of shard rank)
  place shard rank ps po = record {
    start = refl;
    end = refl;
    start_dims = po;
    end_dims = length-plus shard.global_offset shard.shape (po ∙ sym ps) ∙ po;
    shape_dims = ps;
  }

  shard_offset_total :
      (engine_rank : ℕ) (is_infer : Bool)
      → (is_infer ≡ false → engine_rank ≡ 0)
      → (shard : ParameterShardMeta) → IsWellFormed builder (suc n) engine_rank is_infer shard
      → (offs : List ShardOffset) × (shard_offset builder engine_rank is_infer none (suc n) shard
          ≡ ok offs)
        × All (IsOnSide builder (suc n) is_infer) offs
  unfolding shard_offset
  shard_offset_total engine_rank true one shard w =
      let rank = shard.global_rank + engine_rank * builder.infer_instance_world_size in
      let same : not (length shard.global_offset == length shard.shape) ≡ false =
        rw (w.offset_dims, w.shape_dims) (ground arith) in
      let room : ltb (suc n) (length shard.global_offset) ≡ false =
        rw w.offset_dims (ground arith) in
      (
        offset_of shard rank ∷ [],
        rw (not_empty shard.global_offset n w.offset_dims, same, room),
        ((place shard rank w.shape_dims w.offset_dims, w.in_world refl, w.shape_dims), tt),
      )
  shard_offset_total engine_rank false one shard w =
      let rank = shard.global_rank + builder.infer_world_size in
      let same : not (length shard.global_offset == length shard.shape) ≡ false =
        rw (w.offset_dims, w.shape_dims) (ground arith) in
      let room : ltb (suc n) (length shard.global_offset) ≡ false =
        rw w.offset_dims (ground arith) in
      (
        offset_of shard rank ∷ [],
        rw (not_empty shard.global_offset n w.offset_dims, same, one refl, room),
        ((place shard rank w.shape_dims w.offset_dims, omega arith, w.shape_dims), tt),
      )

  create_total :
      (engine_rank : ℕ) (is_infer : Bool)
      → (is_infer ≡ false → engine_rank ≡ 0)
      → (replica : ParameterReplicaMeta) → replica.shards ≢ []
      → All (IsWellFormed builder (suc n) engine_rank is_infer) replica.shards
      → (offs : List ShardOffset) × (create_shard_offset_for_replica builder replica engine_rank
            is_infer none
            (suc n)
          ≡ ok offs)
        × All (IsOnSide builder (suc n) is_infer) offs
  unfolding create_shard_offset_for_replica
  create_total engine_rank is_infer one replica some_shards w =
      let (offs, e, side) =
        flat_map_total (shard_offset builder engine_rank is_infer none (suc n)) _
          (IsOnSide builder (suc n) is_infer)
          (λ shard. shard_offset_total engine_rank is_infer one shard) replica.shards w in
      (offs, rw (has_dims replica.shards some_shards) e, side)
    where
      has_dims :
          (shards : List ParameterShardMeta)
          → shards ≢ []
          → replica_dims (suc n) shards ≡ ok (suc n)
      has_dims [] h = absurd (h refl)
      has_dims (s ∷ shards) h = ground arith

abbrev HasStartDims : ℕ → Bounds → Type 0
HasStartDims d none = Unit
HasStartDims d (some (starts, ends)) = length starts ≡ d

overlap_dims_total :
    (is ts ie te : List ℕ)
    → length ts ≡ length is
    → length ie ≡ length is
    → length te ≡ length is
    → (b : Bounds) × (overlap_dims is ts ie te ≡ ok b) × HasStartDims (length is) b
unfolding overlap_dims
overlap_dims_total [] [] ie te p q r = (some ([], []), refl, refl)
overlap_dims_total [] (t ∷ ts) ie te p q r = absurd (omega arith)
overlap_dims_total (i ∷ is) [] ie te p q r = absurd (omega arith)
overlap_dims_total (i ∷ is) (t ∷ ts) [] te p q r = absurd (omega arith)
overlap_dims_total (i ∷ is) (t ∷ ts) (i' ∷ ie) [] p q r = absurd (omega arith)
overlap_dims_total (i ∷ is) (t ∷ ts) (i' ∷ ie) (t' ∷ te) p q r =
    elim (Bool-cases (leb (min i' t') (max i t))) [
      | inl apart ↦ (none, rw apart, tt)
      | inr meet ↦
          let (b, e, l) =
            overlap_dims_total is ts ie te (omega arith) (omega arith) (omega arith) in
          (put_bounds (max i t) (min i' t') b, rw (meet, e), put (max i t) (min i' t') b l)
    ]
  where
    put :
        (s e : ℕ) (b : Bounds)
        → HasStartDims (length is) b
        → HasStartDims (suc (length is)) (put_bounds s e b)
    put s e none l = tt
    put s e (some b) l = ap suc l

module _ (builder : TransferPlanBuilder) (n : ℕ) where
  -- A region between the two sides, of the dimensions of the parameter.
  record IsReady (r : OverlapRegion) : Type 0 where
    inference : r.inference_shard.rank < builder.infer_world_size
    training : builder.infer_world_size ≤ r.training_shard.rank
    dims : length r.overlap_start ≡ suc n

  overlap_region_total :
      (inf train : ShardOffset)
      → IsOnSide builder (suc n) true inf
      → IsOnSide builder (suc n) false train
      → (rs : List OverlapRegion) × (overlap_region inf train ≡ ok rs) × All IsReady rs
  unfolding overlap_region
  overlap_region_total inf train (pi, ri, _) (pt, rt, _) =
      let (b, e, l) =
        overlap_dims_total inf.start_offset train.start_offset inf.end_offset train.end_offset
          (pt.start_dims ∙ sym pi.start_dims) (pi.end_dims ∙ sym pi.start_dims)
          (pt.end_dims ∙ sym pi.start_dims) in
      (to_region inf train b, rw e, ready b l)
    where
      ready :
          (b : Bounds)
          → HasStartDims (length inf.start_offset) b
          → All IsReady (to_region inf train b)
      ready none l = tt
      ready (some b) l = (record { inference = ri; training = rt; dims = l ∙ pi.start_dims }, tt)

  find_total :
      (infs trains : List ShardOffset)
      → All (IsOnSide builder (suc n) true) infs
      → All (IsOnSide builder (suc n) false) trains
      → (rs : List OverlapRegion) × (find_overlapping_regions infs trains ≡ ok rs) × All IsReady rs
  unfolding find_overlapping_regions
  find_total infs trains si st =
      flat_map_total _ (IsOnSide builder (suc n) true) IsReady
        (λ inf pi.
          flat_map_total (overlap_region inf) (IsOnSide builder (suc n) false) IsReady
            (λ train pt. overlap_region_total inf train pi pt) trains st)
        infs si

  build_region_total :
      (r : OverlapRegion)
      → IsReady r
      → (ops : List CommunicationOperation) × (build_region_communication_plan builder (suc n) r
          ≡ ok ops)
        × All (λ _. Unit {0}) ops
  unfolding build_region_communication_plan
  build_region_total r w =
      let d : (buffer_dims (suc n) (length r.inference_shard.shape) == length r.overlap_start)
          ≡ true =
        rw w.dims (ground arith) in
      let a : not (r.training_shard.rank == r.inference_shard.rank) ≡ true =
        let i = w.inference in let t = w.training in ground arith in
      let s : leb builder.infer_world_size r.training_shard.rank ≡ true =
        let t = w.training in ground arith in
      let q : ltb r.inference_shard.rank builder.infer_world_size ≡ true =
        let i = w.inference in ground arith in
      (region_operation r ∷ [], rw (d, a, s, q), (tt, tt))

first_shape :
    (builder : TransferPlanBuilder) (d : ℕ) (shards : List ParameterShardMeta)
    → shards ≢ []
    → All (IsWellFormed builder d 0 false) shards
    → (s : ParameterShardMeta) × (get_elem? shards 0 ≡ some s) × (length s.shape ≡ d)
first_shape builder d [] h w = absurd (h refl)
first_shape builder d (s ∷ shards) h w = (s, refl, w.0.shape_dims)

-- Two replicas with shards of the same number of dimensions, at least one, whose offsets have as
-- many and whose inference ranks lie in the inference world, have a plan.
pub replica_pair_plan_total :
    (builder : TransferPlanBuilder) (engine_rank n : ℕ) (inference training : ParameterReplicaMeta)
    → inference.shards ≢ []
    → training.shards ≢ []
    → All (IsWellFormed builder (suc n) engine_rank true) inference.shards
    → All (IsWellFormed builder (suc n) 0 false) training.shards
    → (ops : List CommunicationOperation) × (replica_pair_plan builder none engine_rank inference
          training
        ≡ ok ops)
unfolding replica_pair_plan
replica_pair_plan_total builder engine_rank n inference training ni nt wi wt =
    let (first, ef, dims) = first_shape builder (suc n) training.shards nt wt in
    let (infs, ei, si) = create_total builder n engine_rank true (λ e. cc) inference ni wi in
    let (trains, et, st) = create_total builder n 0 false (λ e. refl) training nt wt in
    let (rs, er, ready) = find_total builder n infs trains si st in
    let (ops, eo, _) =
      flat_map_total (build_region_communication_plan builder (suc n)) (IsReady builder n) _
        (build_region_total builder n) rs ready in
    (ops, rw (ef, dims, ei, et, er) eo)
