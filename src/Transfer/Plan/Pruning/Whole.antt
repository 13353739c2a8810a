-- ===== src/Transfer/Plan/Pruning/Whole.antt =====
-- awex/transfer/transfer_plan.py: `build_weights_mapping_operations` with a rank to build for.
use awex.Prelude.{ℕ, ◌≡◌, ◌||◌, Option, none, some, String, List, filter, Bool-cases, inl, inr}
use awex.Prelude.Loops.{flat_map-filter}
use awex.Prelude.Outcome.{ok, bind-eq-ok, raise_if-eq-ok, ok-injective, or_raise}
use awex.Meta.Weight.{ParameterReplicaMeta, ParameterMeta}
use awex.Transfer.Plan.Defs.{
  CommunicationOperation, TransferPlanBuilder, no_replicas, index_error, key_mismatch,
}
use awex.Transfer.Plan.Build.{
  is_empty, engine_replicas, assign, assigned_plan, build_parameter_communication_plan, MetaDict,
  lookup_meta, keys, meta_dict, keys_mismatch, common_params, named_plan,
  build_weights_mapping_operations,
}
use awex.Transfer.Plan.Pruning.Pairs.{is_wanted, replica_pair_plan-pruned}

module _ (builder : TransferPlanBuilder) (wanted : Option ℕ) where
  assigned_plan-pruned :
      (pair : (ℕ × ParameterReplicaMeta) × Option ParameterReplicaMeta)
      (ops : List CommunicationOperation)
      → assigned_plan builder none pair ≡ ok ops
      → assigned_plan builder wanted pair ≡ ok (filter (is_wanted builder wanted) ops)
  unfolding assigned_plan
  assigned_plan-pruned (replica, none) ops h = cc
  assigned_plan-pruned ((engine_rank, replica), some training) ops h =
      replica_pair_plan-pruned builder wanted engine_rank replica training ops h

  parameter-pruned :
      (inference_meta training_meta : ParameterMeta) (ops : List CommunicationOperation)
      → build_parameter_communication_plan builder none inference_meta training_meta ≡ ok ops
      → build_parameter_communication_plan builder wanted inference_meta training_meta
        ≡ ok (filter (is_wanted builder wanted) ops)
  unfolding build_parameter_communication_plan
  parameter-pruned inference_meta training_meta ops h =
      let replicas = engine_replicas builder.num_infer_engines inference_meta.replicas in
      let (some_replicas, loop) =
        raise_if-eq-ok (is_empty replicas || is_empty training_meta.replicas) no_replicas _ h in
      rw some_replicas (
        flat_map-filter (assigned_plan builder none) _ _ assigned_plan-pruned
          (assign training_meta.replicas 0 replicas) ops loop)

  named_plan-pruned :
      (inference_dict training_dict : MetaDict) (name : String) (ops : List CommunicationOperation)
      → named_plan builder none inference_dict training_dict name ≡ ok ops
      → named_plan builder wanted inference_dict training_dict name
        ≡ ok (filter (is_wanted builder wanted) ops)
  unfolding named_plan
  named_plan-pruned inference_dict training_dict name ops h =
      let (inference_meta, ei, h1) =
        bind-eq-ok (or_raise (lookup_meta name inference_dict) index_error) _ h in
      let (training_meta, et, h2) =
        bind-eq-ok (or_raise (lookup_meta name training_dict) index_error) _ h1 in
      rw (ei, et) (parameter-pruned inference_meta training_meta ops h2)

  -- Where the plan for all ranks can be built, a call that is restricted to one rank returns the
  -- operations in which that rank takes part, in the order of the whole plan, and nothing else.
  pub build_weights_mapping_operations-pruned :
      (inference_weights_meta training_weights_meta : List ParameterMeta)
      (ops : List CommunicationOperation)
      → build_weights_mapping_operations builder inference_weights_meta training_weights_meta none
        ≡ ok ops
      → build_weights_mapping_operations builder inference_weights_meta training_weights_meta wanted
        ≡ ok (filter (is_wanted builder wanted) ops)
  unfolding build_weights_mapping_operations
  build_weights_mapping_operations-pruned inference_weights_meta training_weights_meta ops h =
      let inference_dict = meta_dict inference_weights_meta in
      let training_dict = meta_dict training_weights_meta in
      elim (Bool-cases (is_empty inference_weights_meta || is_empty training_weights_meta)) [
        | inl nothing ↦ rw (nothing, ok-injective (rw nothing at h))
        | inr some_metas ↦
            let (agree, loop) =
              raise_if-eq-ok
                (keys_mismatch builder.strict_param_key_match (keys inference_dict)
                  (keys training_dict))
                key_mismatch _ (rw some_metas at h) in
            rw (some_metas, agree)
              (flat_map-filter (named_plan builder none inference_dict training_dict) _ _
                (named_plan-pruned inference_dict training_dict)
                (common_params (keys inference_dict) (keys training_dict)) ops loop)
      ]
