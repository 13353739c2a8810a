-- ===== src/Transfer/Comm/Complete.antt =====
-- What the two builders return: for every rank its operations, each once and in their order.
use mathlib.Core.Path.{subst}
use awex.Prelude.{
  ℕ, ◌+◌, ◌≡◌, refl, ap, sym, ◌∙◌, inl, inr, String, Bool, true, false, some, List, [], ◌∷◌, ◌++◌,
  map, All, get_elem?, take, filter-append, ◌==◌, if◌then◌else◌, arith, Bool-cases, ==→eq,
}
use awex.Prelude.Outcome.{ok}
use awex.Transfer.Plan.Defs.{CommunicationOperation}
use awex.Transfer.Plan.Local.{OpDict, ops_at}
use awex.Transfer.Stages.Build.{is_parameter}
use awex.Transfer.Comm.Rotation.{put_progress}
use awex.Transfer.Comm.Rounds.{rotate_complete}
use awex.Transfer.Comm.Build.{
  SendOps, send_op, file_send, emit_send, nccl_build_send_ops, RecvOps, recv_op, file_recv,
  emit_recv, nccl_build_recv_ops,
}
use awex.Transfer.Comm.Filed.{
  take-length, get_elem-All, to_peer, done_of, done_of-same, done_of-other, Filed, Filed-next,
  Filed-end,
}

module _ (operations : OpDict) where
  -- Where the plan names only parameters of the receiver, the builder of receive operations
  -- returns, and for every rank it holds this rank's operations, each once and in order.
  module _ (is_contiguous : CommunicationOperation → Bool) (parameters : List String)
      (use_batch : Bool) where
    recv_turn :
        ((r : ℕ)
          → All
              (λ op. is_parameter op.recv_shard_meta.name parameters ≡ true)
              (ops_at r operations))
        → (progress : ℕ → ℕ) (built : RecvOps) (rank : ℕ) (op : CommunicationOperation)
        → get_elem? (ops_at rank operations) (progress rank) ≡ some op
        → ((r : ℕ)
            → Filed operations (recv_op is_contiguous use_batch) progress r built.p2p_op_list)
        → (next : RecvOps) × (emit_recv is_contiguous parameters use_batch rank op built ≡ ok next)
          × ((r : ℕ)
              → Filed operations
                  (recv_op is_contiguous use_batch)
                  (put_progress rank (progress rank + 1) progress)
                  r
                  next.p2p_op_list)
    recv_turn known progress built rank op h filed =
        let named =
          get_elem-All (λ o. is_parameter o.recv_shard_meta.name parameters ≡ true)
            (ops_at rank operations) (progress rank) (known rank) h in
        (
          file_recv is_contiguous use_batch rank op built,
          rw named refl,
          λ r.
              Filed-next operations (recv_op is_contiguous use_batch) progress rank r op
                built.p2p_op_list refl h (filed r),
        )

    pub nccl_build_recv_ops_complete :
        ((r : ℕ)
          → All
              (λ op. is_parameter op.recv_shard_meta.name parameters ≡ true)
              (ops_at r operations))
        → (built : RecvOps) × (nccl_build_recv_ops is_contiguous parameters operations use_batch
            ≡ ok built)
          × ((r : ℕ)
              → to_peer r built.p2p_op_list
                ≡ map (recv_op is_contiguous use_batch r) (ops_at r operations))
    unfolding nccl_build_recv_ops
    nccl_build_recv_ops_complete known =
        let (built, e, (end, filed, all)) =
          rotate_complete operations (emit_recv is_contiguous parameters use_batch)
            (λ progress built.
              (r : ℕ)
              → Filed operations (recv_op is_contiguous use_batch) progress r built.p2p_op_list)
            (recv_turn known)
            (record { p2p_op_list = []; non_contiguous_tensor_pairs = []; recv_traj_list = [] })
            (λ r. refl) in
        (
          built,
          e,
          λ r.
              Filed-end operations (recv_op is_contiguous use_batch) end r built.p2p_op_list (all r)
                (filed r),
        )

  module _ (parameters : List String) (copy_rank : ℕ) (use_batch : Bool) where
    record Sent (progress : ℕ → ℕ) (built : SendOps) : Type 0 where
      copied : built.copy_op_list ≡ done_of operations progress copy_rank
      sent :
          (r : ℕ) → (r == copy_rank) ≡ false → Filed operations send_op progress r built.p2p_op_list
      none_to_self : to_peer copy_rank built.p2p_op_list ≡ []

    copy_turn :
        (progress : ℕ → ℕ) (built : SendOps) (rank : ℕ) (op : CommunicationOperation)
        → get_elem? (ops_at rank operations) (progress rank) ≡ some op
        → (rank == copy_rank) ≡ true
        → Sent progress built
        → Sent
            (put_progress rank (progress rank + 1) progress)
            (file_send copy_rank use_batch rank op built)
    copy_turn progress built rank op h same so_far =
        let e = ==→eq rank copy_rank same in
        let next : done_of operations (put_progress rank (progress rank + 1) progress) copy_rank
            ≡ done_of operations progress copy_rank ++ (op ∷ []) =
          subst
            (λ k.
              done_of operations (put_progress rank (progress rank + 1) progress) k
              ≡ done_of operations progress k ++ (op ∷ []))
            e (done_of-same operations progress rank op h) in
        record {
          copied = rw same (ap (λ l. l ++ (op ∷ [])) so_far.copied ∙ sym (rw same at next));
          sent = λ r other.
              let apart : (rank == r) ≡ false = ground arith in
              rw same (
                so_far.sent r other
                ∙ ap (map (send_op r))
                    (sym (done_of-other operations progress rank r (progress rank + 1) apart)));
          none_to_self = rw same so_far.none_to_self;
        }

    send_turn :
        (progress : ℕ → ℕ) (built : SendOps) (rank : ℕ) (op : CommunicationOperation)
        → get_elem? (ops_at rank operations) (progress rank) ≡ some op
        → (rank == copy_rank) ≡ false
        → Sent progress built
        → Sent
            (put_progress rank (progress rank + 1) progress)
            (file_send copy_rank use_batch rank op built)
    send_turn progress built rank op h other so_far =
        let nothing : to_peer copy_rank (send_op rank op ∷ []) ≡ [] = rw other refl in
        record {
          copied = rw other so_far.copied;
          sent = λ r apart. rw other (
              Filed-next operations send_op progress rank r op built.p2p_op_list refl h
                (so_far.sent r apart));
          none_to_self = rw other (
              filter-append (λ x. x.peer == copy_rank) built.p2p_op_list (send_op rank op ∷ [])
              ∙ ap (λ l. l ++ to_peer copy_rank (send_op rank op ∷ [])) so_far.none_to_self
              ∙ nothing);
        }

    any_turn :
        ((r : ℕ)
          → All
              (λ op. is_parameter op.send_shard_meta.name parameters ≡ true)
              (ops_at r operations))
        → (progress : ℕ → ℕ) (built : SendOps) (rank : ℕ) (op : CommunicationOperation)
        → get_elem? (ops_at rank operations) (progress rank) ≡ some op
        → Sent progress built
        → (next : SendOps) × (emit_send parameters copy_rank use_batch rank op built ≡ ok next)
          × Sent (put_progress rank (progress rank + 1) progress) next
    any_turn known progress built rank op h so_far =
        let named =
          get_elem-All (λ o. is_parameter o.send_shard_meta.name parameters ≡ true)
            (ops_at rank operations) (progress rank) (known rank) h in
        (
          file_send copy_rank use_batch rank op built,
          rw named refl,
          elim (Bool-cases (rank == copy_rank)) [
            | inl same ↦ copy_turn progress built rank op h same so_far
            | inr other ↦ send_turn progress built rank op h other so_far
          ],
        )

    -- Where the plan names only parameters of the sender, the builder of send operations returns.
    -- The slices for the rank itself are copied, in order, and for every other rank the list holds
    -- this rank's operations, each once and in order.
    pub nccl_build_send_ops_complete :
        ((r : ℕ)
          → All
              (λ op. is_parameter op.send_shard_meta.name parameters ≡ true)
              (ops_at r operations))
        → (built : SendOps) × (nccl_build_send_ops parameters operations copy_rank use_batch
            ≡ ok built)
          × (built.copy_op_list ≡ ops_at copy_rank operations)
          × ((r : ℕ)
              → to_peer r built.p2p_op_list
                ≡ (if r == copy_rank then [] else map (send_op r) (ops_at r operations)))
    unfolding nccl_build_send_ops
    nccl_build_send_ops_complete known =
        let (built, e, (end, s, all)) =
          rotate_complete operations (emit_send parameters copy_rank use_batch) Sent
            (any_turn known) (record { p2p_op_list = []; copy_op_list = []; send_traj_list = [] })
            (record { copied = refl; sent = λ r other. refl; none_to_self = refl }) in
        (
          built,
          e,
          s.copied
              ∙ ap (λ k. take k (ops_at copy_rank operations)) (all copy_rank)
              ∙ take-length (ops_at copy_rank operations),
          λ r. elim (Bool-cases (r == copy_rank)) [
            | inl self ↦ rw self (
                subst (λ k. to_peer k built.p2p_op_list ≡ []) (sym (==→eq r copy_rank self))
                  s.none_to_self)
            | inr other ↦
                rw other
                  (Filed-end operations send_op end r built.p2p_op_list (all r) (s.sent r other))
          ],
        )
