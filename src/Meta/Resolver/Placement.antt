-- ===== src/Meta/Resolver/Placement.antt =====
-- The offsets of a replica's shards: its shards tile the parameter.
use awex.Prelude.{
  ℕ, zero, suc, ◌+◌, ◌<◌, ◌≡◌, refl, sym, ap, ◌∙◌, Bool, List, [], ◌∷◌, length, set, replicate,
  if◌then◌else◌, arith, All,
}
use awex.Prelude.Loops.{count}
use awex.Prelude.Update.{get_elem-set, set-set, length-set}
use awex.Prelude.Outcome.{ok}
use awex.Meta.Resolver.Replicas.{ShardObject}
use awex.Meta.Resolver.Offsets.{advance, place_shards}
use awex.Meta.Resolver.Axis.{in_axis, in_box-set, in_axis-split, in_axis-empty, plus-replicate}
use awex.Transfer.Plan.Regions.{plus}
use awex.Transfer.Plan.Regions.Boxes.{in_box}
use awex.Transfer.Plan.Build.ShardLaws.{shard_covers}

-- The shards of a replica have the shape `base` up to the dimension `d`, in which they are cut.
abbrev pub AgreesOutside : ℕ → List ℕ → ShardObject → Type 0
AgreesOutside d base (i, shard) = (s : ℕ) × (shard.shape ≡ set base d s)

-- What the shards measure together along the dimension.
abbrev pub extent :
    (d : ℕ) (base : List ℕ) (replica : List ShardObject) → All (AgreesOutside d base) replica → ℕ
extent d base [] all = 0
extent d base (_ ∷ replica) ((s, _), all) = s + extent d base replica all

abbrev pub object_covers : List ℕ → ShardObject → Bool
object_covers cell (i, shard) = shard_covers cell shard

abbrev zeros : List ℕ → List ℕ
zeros base = replicate (length base) 0

length-zeros : (base : List ℕ) → length (zeros base) ≡ length base
length-zeros [] = refl
length-zeros (b ∷ base) = ap suc (length-zeros base)

advance-set :
    (d : ℕ) (base : List ℕ) (o s : ℕ)
    → d < length base
    → advance d (set (zeros base) d o) (set base d s) ≡ ok (set (zeros base) d (o + s))
unfolding advance
advance-set d base o s h =
    let inside : d < length (zeros base) = rw (length-zeros base) h in
    rw (
      get_elem-set (zeros base) d o inside,
      get_elem-set base d s h,
      set-set (zeros base) d o (o + s),
    )

pub place_shards-tiles_from :
    (d : ℕ) (base cell : List ℕ) (o : ℕ) (replica : List ShardObject)
    → (all : All (AgreesOutside d base) replica) → d < length base
    → (placed : List ShardObject) × (place_shards d (set (zeros base) d o) replica ≡ ok placed)
      × (count (object_covers cell) placed
          ≡ (if in_axis d base cell o (o + extent d base replica all) then 1 else 0))
unfolding place_shards
place_shards-tiles_from d base cell o [] all h =
    ([], refl, let e : o + 0 ≡ o = omega arith in rw (e, in_axis-empty d base cell o))
place_shards-tiles_from d base cell o ((i, shard) ∷ replica) ((s, e), all) h =
    let (placed, returns, covers) = place_shards-tiles_from d base cell (o + s) replica all h in
    (
      (i, record shard { global_offset = set (zeros base) d o }) ∷ placed,
      rw (e, advance-set d base o s h, returns),
      rw (e, in_box-set d base cell o s h, covers)
          (in_axis-split d base cell o (o + s) (o + s + extent d base replica all) (omega arith)
              (omega arith)
            ∙ ap (λ n. if in_axis d base cell o n then 1 else 0) (omega arith)),
    )

set-zeros : (d : ℕ) (base : List ℕ) → set (zeros base) d 0 ≡ zeros base
set-zeros d [] = refl
set-zeros zero (b ∷ base) = refl
set-zeros (suc d) (b ∷ base) = ap (λ xs. 0 ∷ xs) (set-zeros d base)

zeros-set : (d : ℕ) (base : List ℕ) (v : ℕ) → zeros (set base d v) ≡ zeros base
zeros-set d base v = ap (λ n. replicate n 0) (length-set base d v)

-- The whole parameter, seen along one dimension.
in_box-whole :
    (d : ℕ) (base cell : List ℕ) (n : ℕ)
    → d < length base
    → in_box (zeros base) (set base d n) cell ≡ in_axis d base cell 0 (0 + n)
in_box-whole d base cell n h =
    let whole : plus (zeros base) (set base d n) ≡ set base d n =
      rw (← zeros-set d base n) (plus-replicate (set base d n)) in
    rw (← in_box-set d base cell 0 n h, set-zeros d base, whole)

-- A replica whose shards agree outside the dimension in which they are cut can be placed, and then
-- each cell of the parameter lies in exactly one of its shards, a cell outside in none.
pub place_shards-tiles :
    (d : ℕ) (base cell : List ℕ) (replica : List ShardObject)
    → (all : All (AgreesOutside d base) replica) → d < length base
    → (placed : List ShardObject) × (place_shards d (replicate (length base) 0) replica ≡ ok placed)
      × (count (object_covers cell) placed ≡ (
          if in_box (replicate (length base) 0) (set base d (extent d base replica all)) cell
          then 1
          else 0))
place_shards-tiles d base cell replica all h =
    let (placed, returns, covers) = place_shards-tiles_from d base cell 0 replica all h in
    (
      placed,
      rw (set-zeros d base) at returns,
      covers ∙ ap (λ b. if b then 1 else 0) (sym (in_box-whole d base cell _ h)),
    )
