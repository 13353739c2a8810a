-- ===== src/Transfer/Plan/Regions/Corners.antt =====
-- The corners of an overlap, and the operation that moves it: the offsets inside the two shards
-- lead back to the same cells of the parameter.
use awex.Prelude.{
  ℕ, ◌+◌, ◌-◌, ◌≡◌, refl, Bool, false, none, some, List, [], ◌∷◌, min, max, length, leb, arith,
  Bool-cases, inl, inr,
}
use awex.Prelude.Outcome.{ok, bind-eq-ok, ok-injective}
use awex.Transfer.Plan.Defs.{CommunicationOperation, ShardOffset, OverlapRegion}
use awex.Transfer.Plan.Regions.Overlap.{Bounds, put_bounds, overlap_dims}
use awex.Transfer.Plan.Regions.Region.{plus, minus}
use awex.Transfer.Plan.Regions.Boxes.{in_box}

-- What the corners of an overlap owe to the corners of the shards.
pub record AreCorners (is ts starts ends : List ℕ) : Type 0 where
  pub in_inference : plus is (minus starts is) ≡ starts
  pub in_training : plus ts (minus starts ts) ≡ starts
  pub across : plus starts (minus ends starts) ≡ ends

abbrev pub BoundsAreCorners : List ℕ → List ℕ → Bounds → Type 0
BoundsAreCorners is ts none = Unit
BoundsAreCorners is ts (some (starts, ends)) = AreCorners is ts starts ends

cons_same : {x y : ℕ} {xs ys : List ℕ} → x ≡ y → xs ≡ ys → x ∷ xs ≡ y ∷ ys
cons_same p q = cc

put_bounds-AreCorners :
    (i t i' t' : ℕ) (is ts : List ℕ) (b : Bounds)
    → leb (min i' t') (max i t) ≡ false
    → BoundsAreCorners is ts b
    → BoundsAreCorners (i ∷ is) (t ∷ ts) (put_bounds (max i t) (min i' t') b)
put_bounds-AreCorners i t i' t' is ts none m h = tt
put_bounds-AreCorners i t i' t' is ts (some b) m h =
    let e : min i' t' - max i t + max i t ≡ min i' t' = ground arith in
    record {
      in_inference = cons_same (omega arith) h.in_inference;
      in_training = cons_same (omega arith) h.in_training;
      across = cons_same (omega arith) h.across;
    }

pub overlap_dims-AreCorners :
    (is ts ie te : List ℕ) (b : Bounds)
    → length ts ≡ length is
    → overlap_dims is ts ie te ≡ ok b
    → BoundsAreCorners is ts b
unfolding overlap_dims
overlap_dims-AreCorners [] [] ie te b p h =
    rw (ok-injective h) (record { in_inference = refl; in_training = refl; across = refl })
overlap_dims-AreCorners [] (t ∷ ts) ie te b p h = absurd (omega arith)
overlap_dims-AreCorners (i ∷ is) [] ie te b p h = absurd (omega arith)
overlap_dims-AreCorners (i ∷ is) (t ∷ ts) [] te b p h = cc
overlap_dims-AreCorners (i ∷ is) (t ∷ ts) (i' ∷ ie) [] b p h = cc
overlap_dims-AreCorners (i ∷ is) (t ∷ ts) (i' ∷ ie) (t' ∷ te) b p h =
    elim (Bool-cases (leb (min i' t') (max i t))) [
      | inl apart ↦ rw (ok-injective (rw apart at h)) tt
      | inr meet ↦
          let (b', e, last) = bind-eq-ok (overlap_dims is ts ie te) _ (rw meet at h) in
          rw (ok-injective last) (
            put_bounds-AreCorners i t i' t' is ts b' meet
              (overlap_dims-AreCorners is ts ie te b' (omega arith) e))
    ]

-- A shard with its corners, in `d` dimensions.
pub record IsPlaced (d : ℕ) (o : ShardOffset) : Type 0 where
  pub start : o.start_offset ≡ o.shard.global_offset
  pub end : o.end_offset ≡ plus o.shard.global_offset o.shard.shape
  pub start_dims : length o.start_offset ≡ d
  pub end_dims : length o.end_offset ≡ d
  pub shape_dims : length o.shard.shape ≡ d

abbrev pub offset_covers : List ℕ → ShardOffset → Bool
offset_covers cell o = in_box o.start_offset o.end_offset cell

abbrev pub region_covers : List ℕ → OverlapRegion → Bool
region_covers cell r = in_box r.overlap_start r.overlap_end cell

-- The cells that an operation delivers, found from the receiving shard.
abbrev pub op_covers : List ℕ → CommunicationOperation → Bool
op_covers cell op =
    let start = plus op.recv_shard_meta.global_offset op.recv_offset in
    in_box start (plus start op.overlap_shape) cell

pub record IsRegion (r : OverlapRegion) : Type 0 where
  pub inference : r.inference_shard.start_offset ≡ r.inference_shard.shard.global_offset
  pub training : r.training_shard.start_offset ≡ r.training_shard.shard.global_offset
  pub corners :
      AreCorners r.inference_shard.start_offset r.training_shard.start_offset r.overlap_start
        r.overlap_end
