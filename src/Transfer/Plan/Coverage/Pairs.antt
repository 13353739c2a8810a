-- ===== src/Transfer/Plan/Coverage/Pairs.antt =====
-- One pair of shards: the region and the operation between them cover what both shards hold.
use awex.Prelude.{
  ℕ, ◌*◌, ◌≡◌, refl, ◌&&◌, none, some, List, if◌then◌else◌, Bool, true, false, arith, ◌∙◌, sym, All,
}
use awex.Prelude.Loops.{count, count-and, count-flat_map, All-flat_map}
use awex.Prelude.Outcome.{ok, bind-eq-ok, ok-injective}
use awex.Meta.Weight.{ParameterShardMeta}
use awex.Transfer.Plan.Build.ShardLaws.{offset_held}
use awex.Transfer.Plan.Defs.{
  CommunicationOperation, ShardOffset, OverlapRegion, TransferPlanBuilder,
}
use awex.Transfer.Plan.Regions.{
  Bounds, overlap_dims, overlap_region, to_region, find_overlapping_regions, region_operation,
  build_region_communication_plan, build_region-eq-ok,
}
use awex.Transfer.Plan.Regions.Boxes.{in_bounds, in_bounds-overlap_dims}
use awex.Transfer.Plan.Regions.Corners.{
  overlap_dims-AreCorners, BoundsAreCorners, IsPlaced, IsRegion, offset_covers, region_covers,
  op_covers,
}

-- A cell of an operation whose shards pass two tests, and of a region between such shards.
abbrev pub op_between :
    (ParameterShardMeta → Bool)
    → (ParameterShardMeta → Bool)
    → List ℕ
    → CommunicationOperation
    → Bool
op_between receives sends cell op =
    receives op.recv_shard_meta && (sends op.send_shard_meta && op_covers cell op)

abbrev pub region_between :
    (ParameterShardMeta → Bool) → (ParameterShardMeta → Bool) → List ℕ → OverlapRegion → Bool
region_between receives sends cell r =
    receives r.inference_shard.shard && (sends r.training_shard.shard && region_covers cell r)

none_between : (b c : Bool) → ◌≡◌ {A = ℕ} (if b && (c && false) then 1 else 0) 0
none_between true true = refl
none_between true false = refl
none_between false c = refl

count-to_region :
    (receives sends : ParameterShardMeta → Bool) (inf train : ShardOffset) (b : Bounds)
    (cell : List ℕ)
    → count (region_between receives sends cell) (to_region inf train b)
      ≡ (if receives inf.shard && (sends train.shard && in_bounds b cell) then 1 else 0)
count-to_region receives sends inf train none cell =
    sym (none_between (receives inf.shard) (sends train.shard))
count-to_region receives sends inf train (some b) cell = omega arith

and_swap : (b c x y : Bool) → (b && (c && (x && y))) ≡ ((b && x) && (c && y))
and_swap true true x y = refl
and_swap true false true y = refl
and_swap true false false y = refl
and_swap false c x y = refl

to_region-IsRegion :
    (d : ℕ) (inf train : ShardOffset) (b : Bounds)
    → IsPlaced d inf
    → IsPlaced d train
    → BoundsAreCorners inf.start_offset train.start_offset b
    → All IsRegion (to_region inf train b)
to_region-IsRegion d inf train none pi pt c = tt
to_region-IsRegion d inf train (some b) pi pt c =
    (record { inference = pi.start; training = pt.start; corners = c }, tt)

module _ (d : ℕ) (inf train : ShardOffset) (pi : IsPlaced d inf) (pt : IsPlaced d train) where
  pub overlap_region-IsRegion :
      (rs : List OverlapRegion) → overlap_region inf train ≡ ok rs → All IsRegion rs
  unfolding overlap_region
  overlap_region-IsRegion rs h =
      let (b, e, last) =
        bind-eq-ok
          (overlap_dims inf.start_offset train.start_offset inf.end_offset train.end_offset) _ h in
      rw (ok-injective last) (
        to_region-IsRegion d inf train b pi pt (
          overlap_dims-AreCorners inf.start_offset train.start_offset inf.end_offset
            train.end_offset b (pt.start_dims ∙ sym pi.start_dims) e))

  pub count-overlap_region :
      (receives sends : ParameterShardMeta → Bool) (cell : List ℕ) (rs : List OverlapRegion)
      → overlap_region inf train ≡ ok rs
      → count (region_between receives sends cell) rs
        ≡ (if offset_held receives cell inf && offset_held sends cell train then 1 else 0)
  unfolding overlap_region
  count-overlap_region receives sends cell rs h =
      let (b, e, last) =
        bind-eq-ok
          (overlap_dims inf.start_offset train.start_offset inf.end_offset train.end_offset) _ h in
      rw (
        ok-injective last,
        count-to_region receives sends inf train b cell,
        in_bounds-overlap_dims inf.start_offset train.start_offset inf.end_offset train.end_offset
            cell b (pt.start_dims ∙ sym pi.start_dims) (pi.end_dims ∙ sym pi.start_dims)
            (pt.end_dims ∙ sym pi.start_dims) e,
        and_swap (receives inf.shard) (sends train.shard) (offset_covers cell inf)
            (offset_covers cell train),
      )

module _ (d : ℕ) (trains : List ShardOffset) (pts : All (IsPlaced d) trains) where
  pub find-IsRegion :
      (infs : List ShardOffset) (rs : List OverlapRegion)
      → All (IsPlaced d) infs
      → find_overlapping_regions infs trains ≡ ok rs
      → All IsRegion rs
  unfolding find_overlapping_regions
  find-IsRegion infs rs pis h =
      All-flat_map _ (IsPlaced d) IsRegion
        (λ inf ys pi.
          All-flat_map (overlap_region inf) (IsPlaced d) IsRegion
            (λ train zs pt. overlap_region-IsRegion d inf train pi pt zs) trains ys pts)
        infs rs pis h

  -- The regions with a cell, between shards that pass two tests, are as many as the pairs of such
  -- shards that hold it.
  pub count-find :
      (receives sends : ParameterShardMeta → Bool) (cell : List ℕ) (infs : List ShardOffset)
      (rs : List OverlapRegion)
      → All (IsPlaced d) infs
      → find_overlapping_regions infs trains ≡ ok rs
      → count (region_between receives sends cell) rs
        ≡ count (offset_held receives cell) infs * count (offset_held sends cell) trains
  unfolding find_overlapping_regions
  count-find receives sends cell infs rs pis h =
      count-flat_map _ (IsPlaced d) (region_between receives sends cell) (offset_held receives cell)
        (count (offset_held sends cell) trains)
        (λ inf ys pi e.
          count-flat_map (overlap_region inf) (IsPlaced d) (region_between receives sends cell)
            (λ train. offset_held receives cell inf && offset_held sends cell train) 1
            (λ train zs pt. count-overlap_region d inf train pi pt receives sends cell zs) trains ys
            pts e
          ∙ omega
              (arith, count-and (offset_held receives cell inf) (offset_held sends cell) trains))
        infs rs pis h

op_covers-region_operation :
    (cell : List ℕ) (r : OverlapRegion)
    → IsRegion r
    → op_covers cell (region_operation r) ≡ region_covers cell r
unfolding region_operation
op_covers-region_operation cell r h = rw (← h.inference, h.corners.in_inference, h.corners.across)

pub count-build_region :
    (receives sends : ParameterShardMeta → Bool) (builder : TransferPlanBuilder) (dims : ℕ)
    (cell : List ℕ) (r : OverlapRegion) (ops : List CommunicationOperation)
    → IsRegion r
    → build_region_communication_plan builder dims r ≡ ok ops
    → count (op_between receives sends cell) ops
      ≡ (if region_between receives sends cell r then 1 else 0)
unfolding build_region_communication_plan region_operation
count-build_region receives sends builder dims cell r ops h e =
    let (last, _, _) = build_region-eq-ok builder dims r ops e in
    rw (last, op_covers-region_operation cell r h) (omega arith)
