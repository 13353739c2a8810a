-- ===== src/Meta/Resolver/GlobalShape.antt =====
-- The global shape that the third loop finds.
use awex.Prelude.{
  ℕ, suc, ◌+◌, ◌<◌, ◌≡◌, refl, sym, ap, ◌∙◌, List, [], ◌∷◌, length, ◌≢◌, inl, inr, ◌==◌, Bool-cases,
  ==→eq, eq→==, get_elem?, set, replicate, if◌then◌else◌, arith, All,
}
use awex.Prelude.Loops.{count}
use awex.Prelude.Update.{get_elem-set, get_elem-set_other, length-set}
use awex.Prelude.Outcome.{Outcome, ok, or_raise, ok-injective}
use awex.Meta.Resolver.Replicas.{ShardObject, ResolverError, index_error}
use awex.Meta.Resolver.Offsets.{global_shape_from, sum_dim, first_dim, place_shards}
use awex.Meta.Resolver.Placement.{AgreesOutside, extent, object_covers, place_shards-tiles}
use awex.Transfer.Plan.Regions.Boxes.{in_box}

-- What the loop reads for one dimension.
abbrev dim_of : ℕ → List ShardObject → ℕ → Outcome ResolverError ℕ
dim_of d replica i = if i == d then sum_dim i replica else first_dim i replica

global_shape_from-reads :
    (d i : ℕ) (replica : List ShardObject) (shape : List ℕ)
    → ((j : ℕ) → dim_of d replica (i + j) ≡ or_raise (get_elem? shape j) index_error)
    → global_shape_from d replica i (length shape) ≡ ok shape
unfolding global_shape_from
global_shape_from-reads d i replica [] reads = refl
global_shape_from-reads d i replica (n ∷ shape) reads =
    let first : dim_of d replica i ≡ ok n = ap (dim_of d replica) (omega arith) ∙ reads 0 in
    let rest : global_shape_from d replica (i + 1) (length shape) ≡ ok shape =
      global_shape_from-reads d (i + 1) replica shape
        (λ j. ap (dim_of d replica) (omega arith) ∙ reads (suc j)) in
    rw (first, rest)

module _ (d : ℕ) (base : List ℕ) (inside : d < length base) where
  sum_dim-extent :
      (replica : List ShardObject) (all : All (AgreesOutside d base) replica)
      → sum_dim d replica ≡ ok (extent d base replica all)
  sum_dim-extent [] all = refl
  sum_dim-extent ((i, shard) ∷ replica) ((s, e), all) =
      rw (e, get_elem-set base d s inside, sum_dim-extent replica all)

  dim_of-global :
      (shard : ShardObject) (replica : List ShardObject)
      → (all : All (AgreesOutside d base) (shard ∷ replica)) → (j : ℕ)
      → dim_of d (shard ∷ replica) j
        ≡ or_raise (get_elem? (set base d (extent d base (shard ∷ replica) all)) j) index_error
  dim_of-global (i, shard) replica ((s, e), all) j = elim (Bool-cases (j == d)) [
    | inl same ↦
        let at_d : dim_of d ((i, shard) ∷ replica) d
            ≡ or_raise (get_elem? (set base d (s + extent d base replica all)) d) index_error =
          rw (eq→== d d refl, get_elem-set base d (s + extent d base replica all) inside)
            (sum_dim-extent ((i, shard) ∷ replica) ((s, e), all)) in
        let e' = ==→eq j d same in
        ap (dim_of d ((i, shard) ∷ replica)) e'
        ∙ at_d
        ∙ ap (λ k. or_raise (get_elem? (set base d (s + extent d base replica all)) k) index_error)
            (sym e')
    | inr other ↦
        let apart : j ≢ d = λ q. let yes = eq→== j d q in cc (yes, other) in
        rw (
          other,
          e,
          get_elem-set_other base d j s apart,
          get_elem-set_other base d j (s + extent d base replica all) apart,
        )
  ]

-- For a replica whose shards agree outside the dimension in which they are cut, the third loop finds
-- a global shape and offsets for all its shards. Then each cell of a parameter of that shape lies in
-- exactly one shard, and a cell outside it in none.
pub replica-tiles :
    (d : ℕ) (base : List ℕ) (shard : ShardObject) (replica : List ShardObject)
    → d < length base
    → All (AgreesOutside d base) (shard ∷ replica)
    → (global_shape : List ℕ) × (placed : List ShardObject) × (global_shape_from d
          (shard ∷ replica)
          0
          (length base)
        ≡ ok global_shape)
      × (place_shards d (replicate (length base) 0) (shard ∷ replica) ≡ ok placed)
      × ((cell : List ℕ)
          → count (object_covers cell) placed
            ≡ (if in_box (replicate (length base) 0) global_shape cell then 1 else 0))
replica-tiles d base shard replica inside all =
    let total = extent d base (shard ∷ replica) all in
    let reads : (j : ℕ)
        → dim_of d (shard ∷ replica) (0 + j)
          ≡ or_raise (get_elem? (set base d total) j) index_error =
      λ j.
        ap (dim_of d (shard ∷ replica)) (omega arith)
        ∙ dim_of-global d base inside shard replica all j in
    let (placed, returns, _) = place_shards-tiles d base [] (shard ∷ replica) all inside in
    (
      set base d total,
      placed,
      rw (← length-set base d total)
          (global_shape_from-reads d 0 (shard ∷ replica) (set base d total) reads),
      returns,
      λ cell.
          let (again, same, covers) = place_shards-tiles d base cell (shard ∷ replica) all inside in
          ap (count (object_covers cell)) (sym (ok-injective (sym returns ∙ same))) ∙ covers,
    )
