-- ===== src/Transfer/Plan/Local.antt =====
-- awex/transfer/transfer_plan.py: `TransferPlan`, `_group_operations_by_rank` and
-- `build_local_transfer_plan`. Logging and the debug dumps to files are left out.
use Prim.Native.Nat.{Ordering}
use awex.Prelude.{
  ℕ, ◌+◌, ◌*◌, Bool, true, false, ◌&&◌, Option, none, some, List, [], ◌∷◌, ◌++◌, map, filter,
  length, leb, ltb, ◌==◌, if◌then◌else◌,
}
use awex.Prelude.Lex.{codes, compare_tuple, then_by}
use awex.Prelude.Sort.{sort}
use awex.Prelude.Outcome.{Outcome, ok, ◌>>=◌, ◌>>◌, require}
use awex.Meta.Weight.{ParameterMeta}
use awex.Transfer.Plan.Defs.{
  CommunicationOperation, PlanError, TransferPlanBuilder, foreign_operation,
}
use awex.Transfer.Plan.Build.{build_weights_mapping_operations, is_empty}

-- `Dict[int, List[CommunicationOperation]]`, in insertion order.
abbrev pub OpDict : Type 0
OpDict = List (ℕ × List CommunicationOperation)

pub record TransferPlan : Type 0 where
  pub operations : OpDict
  pub inter_operations : OpDict

-- `TransferPlan.__post_init__`; `same` is the outcome of the comparison of the two dictionaries.
unfoldable pub post_init : Bool → OpDict → OpDict → TransferPlan
post_init same operations inter_operations =
    if is_empty inter_operations
    then record { operations = operations; inter_operations = operations }
    else if is_empty operations
    then record { operations = inter_operations; inter_operations = inter_operations }
    else if same
    then record { operations = operations; inter_operations = inter_operations }
    else record { operations = inter_operations; inter_operations = inter_operations }

-- `d.get(key, [])`
abbrev pub ops_at : ℕ → OpDict → List CommunicationOperation
ops_at key [] = []
ops_at key ((k, ops) ∷ rest) = if k == key then ops else ops_at key rest

abbrev pub peer_keys : OpDict → List ℕ
peer_keys [] = []
peer_keys ((k, _) ∷ rest) = k ∷ peer_keys rest

-- `grouped[key].append(operation)`, with a new group for a new key.
unfoldable pub add_to_group : ℕ → CommunicationOperation → OpDict → OpDict
add_to_group key operation [] = (key, operation ∷ []) ∷ []
add_to_group key operation ((k, ops) ∷ rest) =
    let later = add_to_group key operation rest in
    if k == key then (k, ops ++ operation ∷ []) ∷ rest else (k, ops) ∷ later

-- The sort key: the sender's parameter name, then the two offsets.
abbrev pub compare_ops : CommunicationOperation → CommunicationOperation → Ordering
compare_ops a b =
    then_by (compare_tuple (codes a.send_shard_meta.name) (codes b.send_shard_meta.name)) (
      then_by (compare_tuple a.send_offset b.send_offset)
        (compare_tuple a.recv_offset b.recv_offset))

abbrev pub op_le : CommunicationOperation → CommunicationOperation → Bool
op_le a b = elim (compare_ops a b) [ Ordering.gt ↦ false | _ ↦ true ]

-- `key_name`, with the reading of it from an operation.
pub data KeyName : Type 0 where
  send_rank_key : KeyName
  recv_rank_key : KeyName

abbrev pub get_key : KeyName → CommunicationOperation → ℕ
get_key send_rank_key op = op.send_rank
get_key recv_rank_key op = op.recv_rank

unfoldable pub group_from : KeyName → OpDict → List CommunicationOperation → OpDict
unfolding add_to_group
group_from key_name dict [] = dict
group_from key_name dict (op ∷ ops) =
    group_from key_name (add_to_group (get_key key_name op) op dict) ops

abbrev pub sort_groups : OpDict → OpDict
sort_groups [] = []
sort_groups ((k, ops) ∷ rest) = (k, sort op_le ops) ∷ sort_groups rest

unfoldable pub group_operations_by_rank : List CommunicationOperation → KeyName → OpDict
unfolding group_from
group_operations_by_rank operations key_name =
    let grouped = sort_groups (group_from key_name [] operations) in
    map (λ key. (key, ops_at key grouped)) (sort leb (peer_keys grouped))

abbrev pub sum_by : {A : Type 0} → (A → ℕ) → List A → ℕ
sum_by f [] = 0
sum_by f (x ∷ xs) = f x + sum_by f xs

abbrev pub shard_count : List ParameterMeta → ℕ
shard_count = sum_by (λ param. sum_by (λ replica. length replica.shards) param.replicas)

-- Above this number of shards a rank builds only the part of the plan that concerns it.
abbrev pub prune_threshold : ℕ
prune_threshold = 10000

abbrev pub is_train_rank : TransferPlanBuilder → ℕ → Bool
is_train_rank builder rank = leb builder.infer_world_size rank

-- Whether an operation has this rank at its own end.
abbrev pub is_local : TransferPlanBuilder → ℕ → CommunicationOperation → Bool
is_local builder rank op =
    if is_train_rank builder rank then op.send_rank == rank else op.recv_rank == rank

abbrev pub every : {A : Type 0} → (A → Bool) → List A → Bool
every test [] = true
every test (x ∷ xs) = test x && every test xs

-- The validation loop over the grouped operations.
abbrev pub every_grouped : (CommunicationOperation → Bool) → OpDict → Bool
every_grouped test [] = true
every_grouped test ((_, ops) ∷ rest) = every test ops && every_grouped test rest

abbrev pub all_local : TransferPlanBuilder → ℕ → OpDict → Bool
all_local builder rank = every_grouped (is_local builder rank)

-- The rank that the global plan is restricted to.
abbrev pub pruned_to : TransferPlanBuilder → List ParameterMeta → List ParameterMeta → ℕ → Option ℕ
pruned_to builder inference_weights_meta training_weights_meta rank =
    let num_infer_shards = shard_count inference_weights_meta * builder.num_infer_engines in
    let total_shards = num_infer_shards + shard_count training_weights_meta in
    if ltb prune_threshold total_shards then some rank else none

unfoldable pub build_local_transfer_plan :
    TransferPlanBuilder
    → List ParameterMeta
    → List ParameterMeta
    → ℕ
    → Outcome PlanError TransferPlan
unfolding post_init
build_local_transfer_plan builder inference_weights_meta training_weights_meta rank = do
  operations ←
      build_weights_mapping_operations builder inference_weights_meta training_weights_meta
        (pruned_to builder inference_weights_meta training_weights_meta rank)
  let new_operations = filter (is_local builder rank) operations
  let grouped_operations =
      group_operations_by_rank new_operations
        (if is_train_rank builder rank then recv_rank_key else send_rank_key)
  require (all_local builder rank grouped_operations) foreign_operation
  ok (post_init false [] grouped_operations)
