-- ===== src/Transfer/Plan/Regions/Fit.antt =====
-- The slices of an operation lie inside the two shards, and have one shape.
use awex.Prelude.{
  ℕ, ◌+◌, ◌-◌, ◌≤◌, ◌<◌, ◌≡◌, refl, false, none, some, List, [], ◌∷◌, map, min, max, length, leb,
  arith, ◌∙◌, sym, Bool-cases, inl, inr, All,
}
use awex.Prelude.Outcome.{ok, bind-eq-ok, ok-injective}
use awex.Transfer.Plan.Defs.{Slice, CommunicationOperation, ShardOffset, OverlapRegion}
use awex.Transfer.Plan.Regions.Overlap.{Bounds, put_bounds, overlap_dims, overlap_region, to_region}
use awex.Transfer.Plan.Regions.Region.{plus, minus, slices, region_operation}
use awex.Transfer.Plan.Regions.Corners.{BoundsAreCorners, overlap_dims-AreCorners, IsPlaced}

-- Slices into a tensor of this shape: as many as it has dimensions, none empty, none past an end.
abbrev pub Within : List Slice → List ℕ → Type 0
Within [] [] = Unit
Within (s ∷ ss) (n ∷ shape) = (s.start < s.stop) × (s.stop ≤ n) × Within ss shape
Within _ _ = ⊥

abbrev pub width : Slice → ℕ
width s = s.stop - s.start

-- An operation copies the same cells on both sides: its two corners are one cell of the parameter,
-- its slices lie in the shards, and both select the shape of the overlap.
pub record IsExact (op : CommunicationOperation) : Type 0 where
  pub same_corner :
      plus op.send_shard_meta.global_offset op.send_offset
      ≡ plus op.recv_shard_meta.global_offset op.recv_offset
  pub in_sender : Within op.train_slices op.send_shard_meta.shape
  pub in_receiver : Within op.inf_slices op.recv_shard_meta.shape
  pub sent_shape : map width op.train_slices ≡ op.overlap_shape
  pub received_shape : map width op.inf_slices ≡ op.overlap_shape

abbrev FitsAt : List ℕ → List ℕ → List ℕ → List ℕ → Type 0
FitsAt start shape starts ends =
    let sel = slices (minus starts start) (minus ends starts) in
    Within sel shape × (map width sel ≡ minus ends starts)

abbrev BoundsFit : List ℕ → List ℕ → List ℕ → List ℕ → Bounds → Type 0
BoundsFit is ih ts th none = Unit
BoundsFit is ih ts th (some (starts, ends)) = FitsAt is ih starts ends × FitsAt ts th starts ends

put_bounds-BoundsFit :
    (i t a b : ℕ) (is ih ts th : List ℕ) (c : Bounds)
    → leb (min (i + a) (t + b)) (max i t) ≡ false
    → BoundsFit is ih ts th c
    → BoundsFit (i ∷ is) (a ∷ ih) (t ∷ ts) (b ∷ th) (put_bounds (max i t) (min (i + a) (t + b)) c)
unfolding slices
put_bounds-BoundsFit i t a b is ih ts th none m h = tt
put_bounds-BoundsFit i t a b is ih ts th (some (starts, ends)) m ((wi, ei), (wt, et)) =
    let lt : max i t < min (i + a) (t + b) = ground arith in
    (
      ((omega arith, omega arith, wi), cons_width _ _ ei),
      ((omega arith, omega arith, wt), cons_width _ _ et),
    )
  where
    cons_width : (o n : ℕ) {xs ys : List ℕ} → xs ≡ ys → (o + n - o) ∷ xs ≡ n ∷ ys
    cons_width o n e = let same : o + n - o ≡ n = omega arith in cc (same, e)

overlap_dims-BoundsFit :
    (is ih ts th : List ℕ) (b : Bounds)
    → length ih ≡ length is
    → length ts ≡ length is
    → length th ≡ length is
    → overlap_dims is ts (plus is ih) (plus ts th) ≡ ok b
    → BoundsFit is ih ts th b
unfolding overlap_dims slices
overlap_dims-BoundsFit [] [] [] [] b p q r h = rw (ok-injective h) ((tt, refl), (tt, refl))
overlap_dims-BoundsFit [] [] [] (x ∷ th) b p q r h = absurd (omega arith)
overlap_dims-BoundsFit [] [] (x ∷ ts) th b p q r h = absurd (omega arith)
overlap_dims-BoundsFit [] (x ∷ ih) ts th b p q r h = absurd (omega arith)
overlap_dims-BoundsFit (i ∷ is) [] ts th b p q r h = absurd (omega arith)
overlap_dims-BoundsFit (i ∷ is) (a ∷ ih) [] th b p q r h = absurd (omega arith)
overlap_dims-BoundsFit (i ∷ is) (a ∷ ih) (t ∷ ts) [] b p q r h = absurd (omega arith)
overlap_dims-BoundsFit (i ∷ is) (a ∷ ih) (t ∷ ts) (c ∷ th) b p q r h =
    elim (Bool-cases (leb (min (i + a) (t + c)) (max i t))) [
      | inl apart ↦ rw (ok-injective (rw apart at h)) tt
      | inr meet ↦
          let (b', e, last) =
            bind-eq-ok (overlap_dims is ts (plus is ih) (plus ts th)) _ (rw meet at h) in
          rw (ok-injective last) (
            put_bounds-BoundsFit i t a c is ih ts th b' meet
              (overlap_dims-BoundsFit is ih ts th b' (omega arith) (omega arith) (omega arith) e))
    ]

-- A region whose operation is exact.
abbrev pub RegionIsExact : OverlapRegion → Type 0
RegionIsExact r = IsExact (region_operation r)

module _ (d : ℕ) (inf train : ShardOffset) (pi : IsPlaced d inf) (pt : IsPlaced d train) where
  to_region-IsExact :
      (b : Bounds)
      → BoundsAreCorners inf.start_offset train.start_offset b
      → BoundsFit inf.start_offset inf.shard.shape train.start_offset train.shard.shape b
      → All RegionIsExact (to_region inf train b)
  unfolding region_operation
  to_region-IsExact none c f = tt
  to_region-IsExact (some b) c ((wi, ei), (wt, et)) = (
    record {
      same_corner = rw (← pi.start, ← pt.start, c.in_inference, c.in_training);
      in_sender = wt;
      in_receiver = wi;
      sent_shape = et;
      received_shape = ei;
    },
    tt,
  )

  pub overlap_region-IsExact :
      (rs : List OverlapRegion) → overlap_region inf train ≡ ok rs → All RegionIsExact rs
  unfolding overlap_region
  overlap_region-IsExact rs h =
      let (b, e, last) =
        bind-eq-ok
          (overlap_dims inf.start_offset train.start_offset inf.end_offset train.end_offset) _ h in
      let e' : overlap_dims inf.start_offset train.start_offset
            (plus inf.start_offset inf.shard.shape) (plus train.start_offset train.shard.shape)
          ≡ ok b =
        rw (pi.start, pt.start, ← pi.end, ← pt.end, ← pi.start, ← pt.start) e in
      rw (ok-injective last) (
        to_region-IsExact b
          (overlap_dims-AreCorners inf.start_offset train.start_offset inf.end_offset
            train.end_offset b (pt.start_dims ∙ sym pi.start_dims) e)
          (overlap_dims-BoundsFit inf.start_offset inf.shard.shape train.start_offset
            train.shard.shape b (pi.shape_dims ∙ sym pi.start_dims)
            (pt.start_dims ∙ sym pi.start_dims) (pt.shape_dims ∙ sym pi.start_dims) e'))
