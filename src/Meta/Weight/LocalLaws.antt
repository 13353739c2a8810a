-- ===== src/Meta/Weight/LocalLaws.antt =====
-- awex/meta/weight_meta.py: what `to_local_parameter_meta` returns.
use awex.Prelude.{
  ℕ, ◌≤◌, ◌≡◌, refl, sym, List, [], ◌∷◌, ◌++◌, length, get_elem?, filter, filter-append, leb,
  leb→le, ◌==◌, ==→eq, Bool-cases, inl, inr, All, arith,
}
use mathlib.Core.List.{append-nil, append_assoc}
use awex.Prelude.Loops.{flat_map-cons}
use awex.Prelude.Outcome
use awex.Prelude.Outcome.{ok, bind-eq-ok, ok-injective, require-eq-ok, or_raise}
use awex.Meta.Weight.Records.{ParameterShardMeta, ParameterReplicaMeta, ParameterMeta}
use awex.Meta.Weight.Local.{
  index_error, several_in_replica, several_shards, several_replicas, all_shards,
  fast_copy_with_engine_rank, is_on_rank, keep_replica, to_local_parameter_meta,
}

-- The metadata that a rank has of a parameter.
pub record IsLocal (global_rank : ℕ) (self local : ParameterMeta) : Type 0 where
  pub at_most_one : length local.shards ≤ 1
  pub of_rank : All (λ shard. shard.global_rank ≡ global_rank) local.shards
  pub in_replicas : all_shards local.replicas ≡ local.shards
  pub same_name : local.name ≡ self.name
  pub same_shape : local.global_shape ≡ self.global_shape
  pub same_numel : local.global_numel ≡ self.global_numel
  pub same_dtype : local.dtype ≡ self.dtype

filter-of_rank :
    (global_rank : ℕ) (shards : List ParameterShardMeta)
    → All (λ shard. shard.global_rank ≡ global_rank) (filter (is_on_rank global_rank) shards)
filter-of_rank global_rank [] = tt
filter-of_rank global_rank (shard ∷ shards) = elim (Bool-cases (shard.global_rank == global_rank)) [
  | inl here ↦ rw here (==→eq shard.global_rank global_rank here, filter-of_rank global_rank shards)
  | inr other ↦ rw other (filter-of_rank global_rank shards)
]

keep_replica-shards :
    (global_rank : ℕ) (replica : ParameterReplicaMeta) (kept : List ParameterReplicaMeta)
    → keep_replica global_rank replica ≡ ok kept
    → all_shards kept ≡ filter (is_on_rank global_rank) replica.shards
unfolding keep_replica
keep_replica-shards global_rank replica kept h =
    let found = filter (is_on_rank global_rank) replica.shards in
    elim (Bool-cases (length found == 1)) [
      | inl one ↦ rw (ok-injective (rw one at h)) (append-nil found)
      | inr other ↦
          let (empty, last) =
            require-eq-ok (length found == 0) several_in_replica _ (rw other at h) in
          rw (ok-injective last) (sym (length-zero found (==→eq (length found) 0 empty)))
    ]
  where
    length-zero : (xs : List ParameterShardMeta) → length xs ≡ 0 → xs ≡ []
    length-zero [] e = refl
    length-zero (x ∷ xs) e = absurd (omega (arith, e))

flat_map-keep_replica :
    (global_rank : ℕ) (replicas kept : List ParameterReplicaMeta)
    → Outcome.flat_map (keep_replica global_rank) replicas ≡ ok kept
    → all_shards kept ≡ filter (is_on_rank global_rank) (all_shards replicas)
flat_map-keep_replica global_rank [] kept h = rw (ok-injective h) refl
flat_map-keep_replica global_rank (replica ∷ replicas) kept h =
    let (this, rest, e, e', last) =
      flat_map-cons (keep_replica global_rank) replica replicas kept h in
    rw
      (
        last,
        all_shards-append this rest,
        keep_replica-shards global_rank replica this e,
        flat_map-keep_replica global_rank replicas rest e',
        filter-append (is_on_rank global_rank) replica.shards (all_shards replicas),
      )
      refl
  where
    all_shards-append :
        (xs ys : List ParameterReplicaMeta) → all_shards (xs ++ ys) ≡ all_shards xs ++ all_shards ys
    all_shards-append [] ys = refl
    all_shards-append (x ∷ xs) ys =
        rw (all_shards-append xs ys) (sym (append_assoc x.shards (all_shards xs) (all_shards ys)))

-- Where a parameter has local metadata for a rank, it has at most one shard, which is of that rank,
-- its replicas hold just that shard, and the parameter is otherwise the same.
pub to_local_parameter_meta-IsLocal :
    (self local : ParameterMeta) (global_rank : ℕ)
    → to_local_parameter_meta self global_rank ≡ ok local
    → IsLocal global_rank self local
unfolding to_local_parameter_meta fast_copy_with_engine_rank
to_local_parameter_meta-IsLocal self local global_rank h =
    let (first, e, rest) = bind-eq-ok (or_raise (get_elem? self.shards 0) index_error) _ h in
    let new_meta = fast_copy_with_engine_rank self first.engine_rank in
    let shards = filter (is_on_rank global_rank) new_meta.shards in
    let (kept, e', rest') =
      bind-eq-ok (Outcome.flat_map (keep_replica global_rank) new_meta.replicas) _ rest in
    let (few, rest'') = require-eq-ok (leb (length shards) 1) several_shards _ rest' in
    let (few', last) = require-eq-ok (leb (length kept) 1) several_replicas _ rest'' in
    rw (ok-injective last) (record {
      at_most_one = leb→le (length shards) 1 few;
      of_rank = filter-of_rank global_rank new_meta.shards;
      in_replicas = flat_map-keep_replica global_rank new_meta.replicas kept e';
      same_name = refl;
      same_shape = refl;
      same_numel = refl;
      same_dtype = refl;
    })
