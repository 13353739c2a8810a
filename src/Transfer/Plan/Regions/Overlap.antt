-- ===== src/Transfer/Plan/Regions/Overlap.antt =====
-- awex/transfer/transfer_plan.py: `_find_overlapping_regions`.
use awex.Prelude.{ℕ, Option, none, some, List, [], ◌∷◌, min, max, leb, if◌then◌else◌}
use awex.Prelude.Outcome
use awex.Prelude.Outcome.{Outcome, ok, err, ◌>>=◌}
use awex.Transfer.Plan.Defs.{ShardOffset, OverlapRegion, PlanError, index_error}

-- The start and the end of an overlap, or `none` where some dimension has none.
abbrev pub Bounds : Type 0
Bounds = Option (List ℕ × List ℕ)

abbrev pub put_bounds : ℕ → ℕ → Bounds → Bounds
put_bounds start end none = none
put_bounds start end (some (starts, ends)) = some (start ∷ starts, end ∷ ends)

-- The loop over the dimensions of the inference shard. It stops at the first dimension in which the
-- shards do not meet; a training shard with fewer dimensions is read past its end.
unfoldable pub overlap_dims : List ℕ → List ℕ → List ℕ → List ℕ → Outcome PlanError Bounds
overlap_dims [] _ _ _ = ok (some ([], []))
overlap_dims (is ∷ inf_start) (ts ∷ train_start) (ie ∷ inf_end) (te ∷ train_end) =
    let rest = overlap_dims inf_start train_start inf_end train_end in
    if leb (min ie te) (max is ts)
    then ok none
    else (do bounds ← rest; ok (put_bounds (max is ts) (min ie te) bounds))
overlap_dims _ _ _ _ = err index_error

abbrev pub to_region : ShardOffset → ShardOffset → Bounds → List OverlapRegion
to_region inf train none = []
to_region inf train (some (starts, ends)) =
    (record {
      inference_shard = inf;
      training_shard = train;
      overlap_start = starts;
      overlap_end = ends;
    })
    ∷ []

-- The body of the two loops: the region of one pair of shards, if they overlap.
unfoldable pub overlap_region : ShardOffset → ShardOffset → Outcome PlanError (List OverlapRegion)
overlap_region inf train = do
  bounds ← overlap_dims inf.start_offset train.start_offset inf.end_offset train.end_offset
  ok (to_region inf train bounds)

unfoldable pub find_overlapping_regions :
    List ShardOffset → List ShardOffset → Outcome PlanError (List OverlapRegion)
find_overlapping_regions inference_map training_map =
    Outcome.flat_map (λ inf. Outcome.flat_map (overlap_region inf) training_map) inference_map
