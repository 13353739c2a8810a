-- ===== src/Transfer/Plan/Alignment.antt =====
-- awex/transfer/transfer_plan.py: `build_local_transfer_plan` on the two sides of a transfer.
use awex.Prelude.{
  ℕ, ◌≡◌, ◌⊎◌, ◌≤◌, ◌<◌, refl, Bool, true, false, not, Option, none, some, List, [], ◌∷◌, filter,
  leb, ◌==◌, if◌then◌else◌, arith, ap, ◌∙◌, sym, inl, inr, filter-ext, filter_comm, filter_idem,
}
use awex.Prelude.Sort.{sort}
use awex.Prelude.Outcome.{ok, ok-injective}
use awex.Meta.Weight.{ParameterMeta}
use awex.Transfer.Plan.Defs.{CommunicationOperation, TransferPlanBuilder}
use awex.Transfer.Plan.Build.{build_weights_mapping_operations}
use awex.Transfer.Plan.Local.{
  TransferPlan, OpDict, ops_at, op_le, KeyName, send_rank_key, recv_rank_key, get_key, post_init,
  is_train_rank, is_local, pruned_to, group_operations_by_rank, build_local_transfer_plan,
}
use awex.Transfer.Plan.Grouping.{ops_at-group_operations_by_rank, every-group_operations_by_rank}
use awex.Transfer.Plan.Pruning.Whole.{build_weights_mapping_operations-pruned}
use awex.Transfer.Plan.Pruning.Pairs.{is_wanted}

-- The rank at the other end of an operation.
abbrev pub peer_key : TransferPlanBuilder → ℕ → KeyName
peer_key builder rank = if is_train_rank builder rank then recv_rank_key else send_rank_key

is_wanted-eq-is_local :
    (builder : TransferPlanBuilder) (rank : ℕ) (op : CommunicationOperation)
    → is_wanted builder (some rank) op ≡ is_local builder rank op
is_wanted-eq-is_local builder rank op = ground arith

inter_operations-post_init :
    (peer : ℕ) (grouped : OpDict)
    → ops_at peer (post_init false [] grouped).inter_operations ≡ ops_at peer grouped
unfolding post_init
inter_operations-post_init peer [] = refl
inter_operations-post_init peer (group ∷ rest) = refl

module _ (builder : TransferPlanBuilder)
    (inference_weights_meta training_weights_meta : List ParameterMeta)
    (ops : List CommunicationOperation)
    (whole : build_weights_mapping_operations builder inference_weights_meta training_weights_meta
        none
      ≡ ok ops) where
  -- Pruned or not, the operations that are then filtered by the rank's own end are the same.
  local_operations :
      (rank : ℕ) (wanted : Option ℕ)
      → (wanted ≡ none) ⊎ (wanted ≡ some rank)
      → (found : List CommunicationOperation) × (build_weights_mapping_operations builder
            inference_weights_meta training_weights_meta wanted
          ≡ ok found)
        × (filter (is_local builder rank) found ≡ filter (is_local builder rank) ops)
  local_operations rank wanted (inl e) = (ops, rw e whole, refl)
  local_operations rank wanted (inr e) = (
    filter (is_local builder rank) ops,
    rw (
      e,
      build_weights_mapping_operations-pruned builder (some rank) inference_weights_meta
          training_weights_meta ops whole,
      filter-ext (is_wanted builder (some rank)) (is_local builder rank)
          (is_wanted-eq-is_local builder rank) ops,
    ),
    filter_idem (is_local builder rank) ops,
  )

  pruned_to-cases :
      (rank : ℕ)
      → (pruned_to builder inference_weights_meta training_weights_meta rank ≡ none)
        ⊎ (pruned_to builder inference_weights_meta training_weights_meta rank ≡ some rank)
  pruned_to-cases rank = ground arith

  -- Where the plan for all ranks can be built, the local plan of every rank can, whether pruned or
  -- not, and under each peer it holds exactly the operations of the whole plan between the two
  -- ranks, sorted by parameter name and offsets.
  pub build_local_transfer_plan-content :
      (rank : ℕ)
      → (plan : TransferPlan) × (build_local_transfer_plan builder inference_weights_meta
            training_weights_meta rank
          ≡ ok plan)
        × ((peer : ℕ)
            → ops_at peer plan.inter_operations
              ≡ sort op_le (
                  filter
                    (λ op. get_key (peer_key builder rank) op == peer)
                    (filter (is_local builder rank) ops)))
  unfolding build_local_transfer_plan
  build_local_transfer_plan-content rank =
      let wanted = pruned_to builder inference_weights_meta training_weights_meta rank in
      let (found, e, same) = local_operations rank wanted (pruned_to-cases rank) in
      let grouped =
        group_operations_by_rank (filter (is_local builder rank) found) (peer_key builder rank) in
      (
        post_init false [] grouped,
        rw (
          e,
          every-group_operations_by_rank (peer_key builder rank) (is_local builder rank) found,
        ),
        λ peer.
            inter_operations-post_init peer grouped
            ∙ ops_at-group_operations_by_rank (peer_key builder rank) peer
                (filter (is_local builder rank) found)
            ∙ ap
                (λ (l : List CommunicationOperation).
                  sort op_le (filter (λ op. get_key (peer_key builder rank) op == peer) l))
                same,
      )

  content_of :
      (rank peer : ℕ) (plan : TransferPlan)
      → build_local_transfer_plan builder inference_weights_meta training_weights_meta rank
        ≡ ok plan
      → ops_at peer plan.inter_operations
        ≡ sort op_le (
            filter
              (λ op. get_key (peer_key builder rank) op == peer)
              (filter (is_local builder rank) ops))
  content_of rank peer plan h =
      let (plan', e, content) = build_local_transfer_plan-content rank in
      let same : plan ≡ plan' = ok-injective (sym e ∙ h) in rw same (content peer)

  abbrev end_of : Bool → ℕ → CommunicationOperation → Bool
  end_of true rank op = op.send_rank == rank
  end_of false rank op = op.recv_rank == rank

  at_end :
      (is_train : Bool) (rank peer : ℕ)
      → is_train_rank builder rank ≡ is_train
      → filter
          (λ op. get_key (peer_key builder rank) op == peer)
          (filter (is_local builder rank) ops)
        ≡ filter (end_of (not is_train) peer) (filter (end_of is_train rank) ops)
  at_end is_train rank peer e =
      filter-ext (λ op. get_key (peer_key builder rank) op == peer) (end_of (not is_train) peer)
        (λ op. key_end is_train peer op (is_train_rank builder rank) e)
        (filter (is_local builder rank) ops)
      ∙ ap (filter (end_of (not is_train) peer)) (
          filter-ext (is_local builder rank) (end_of is_train rank)
            (λ op. own_end is_train rank op (is_train_rank builder rank) e) ops)
    where
      key_end :
          (is_train : Bool) (peer : ℕ) (op : CommunicationOperation) (b : Bool)
          → b ≡ is_train
          → (get_key (if b then recv_rank_key else send_rank_key) op == peer)
            ≡ end_of (not is_train) peer op
      key_end is_train peer op b e = ground arith

      own_end :
          (is_train : Bool) (rank : ℕ) (op : CommunicationOperation) (b : Bool)
          → b ≡ is_train
          → (if b then op.send_rank == rank else op.recv_rank == rank) ≡ end_of is_train rank op
      own_end is_train rank op b e = ground arith

  -- Where the plan for all ranks can be built, a training rank's list for an inference rank and
  -- that rank's list for the training rank are the same operations in the same order.
  pub build_local_transfer_plan-aligned :
      (sender receiver : ℕ) (sends receives : TransferPlan)
      → builder.infer_world_size ≤ sender
      → receiver < builder.infer_world_size
      → build_local_transfer_plan builder inference_weights_meta training_weights_meta sender
        ≡ ok sends
      → build_local_transfer_plan builder inference_weights_meta training_weights_meta receiver
        ≡ ok receives
      → ops_at receiver sends.inter_operations ≡ ops_at sender receives.inter_operations
  build_local_transfer_plan-aligned sender receiver sends receives ts ir hs hr =
      let s : leb builder.infer_world_size sender ≡ true = ground arith in
      let r : leb builder.infer_world_size receiver ≡ false = ground arith in
      content_of sender receiver sends hs
      ∙ ap (sort op_le) (
          at_end true sender receiver s
          ∙ filter_comm (λ op. op.recv_rank == receiver) (λ op. op.send_rank == sender) ops
          ∙ sym (at_end false receiver sender r))
      ∙ sym (content_of receiver sender receives hr)
