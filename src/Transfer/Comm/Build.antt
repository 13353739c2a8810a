-- ===== src/Transfer/Comm/Build.antt =====
-- `nccl_build_send_ops` and `nccl_build_recv_ops`. A sliced tensor is known by its operation; whether
-- the slice on the receiving side is contiguous is an argument. The memory figures that are only
-- logged are left out.
use awex.Prelude.{ℕ, suc, String, Bool, false, ◌&&◌, not, List, [], ◌∷◌, ◌++◌, ◌==◌, if◌then◌else◌}
use awex.Prelude.Outcome.{Outcome, ok, ◌>>◌, require}
use awex.Transfer.Plan.Defs.{CommunicationOperation}
use awex.Transfer.Plan.Local.{OpDict, peer_keys}
use awex.Transfer.Stages.Build.{is_parameter}
use awex.Transfer.Comm.Rotation.{CommError, key_error, longest, rotate}

pub data Direction : Type 0 where
  isend : Direction
  irecv : Direction

-- A `dist.P2POp`; `is_copy` where its tensor is a contiguous copy of the slice.
pub record DirectedOp : Type 0 where
  pub op : Direction
  pub tensor : CommunicationOperation
  pub is_copy : Bool
  pub peer : ℕ

pub record SendOps : Type 0 where
  pub p2p_op_list : List DirectedOp
  pub copy_op_list : List CommunicationOperation
  pub send_traj_list : List (String × ℕ)

abbrev pub send_op : ℕ → CommunicationOperation → DirectedOp
send_op recv_rank op = record { op = isend; tensor = op; is_copy = false; peer = recv_rank }

-- A slice for the rank itself is copied, any other is sent.
abbrev pub file_send : ℕ → Bool → ℕ → CommunicationOperation → SendOps → SendOps
file_send copy_rank use_batch_send_recv recv_rank op built =
    if recv_rank == copy_rank
    then record {
      p2p_op_list = built.p2p_op_list;
      copy_op_list = built.copy_op_list ++ (op ∷ []);
      send_traj_list = built.send_traj_list;
    }
    else record {
      p2p_op_list = built.p2p_op_list ++ (send_op recv_rank op ∷ []);
      copy_op_list = built.copy_op_list;
      send_traj_list =
          if use_batch_send_recv
          then built.send_traj_list
          else built.send_traj_list ++ ((op.send_shard_meta.name, recv_rank) ∷ []);
    }

abbrev pub emit_send :
    List String → ℕ → Bool → ℕ → CommunicationOperation → SendOps → Outcome CommError SendOps
emit_send parameters copy_rank use_batch_send_recv recv_rank op built =
    require (is_parameter op.send_shard_meta.name parameters) key_error
    >> ok (file_send copy_rank use_batch_send_recv recv_rank op built)

unfoldable pub nccl_build_send_ops : List String → OpDict → ℕ → Bool → Outcome CommError SendOps
nccl_build_send_ops parameters operations copy_rank use_batch_send_recv =
    rotate operations (emit_send parameters copy_rank use_batch_send_recv)
      (suc (longest operations)) (peer_keys operations) (λ _. 0)
      (record { p2p_op_list = []; copy_op_list = []; send_traj_list = [] })

pub record RecvOps : Type 0 where
  pub p2p_op_list : List DirectedOp
  pub non_contiguous_tensor_pairs : List CommunicationOperation
  pub recv_traj_list : List (String × ℕ)

module _ (is_contiguous : CommunicationOperation → Bool) where
  abbrev pub needs_copy : Bool → CommunicationOperation → Bool
  needs_copy use_batch_send_recv op = not (is_contiguous op) && use_batch_send_recv

  abbrev pub recv_op : Bool → ℕ → CommunicationOperation → DirectedOp
  recv_op use_batch_send_recv send_rank op = record {
    op = irecv;
    tensor = op;
    is_copy = needs_copy use_batch_send_recv op;
    peer = send_rank;
  }

  abbrev pub file_recv : Bool → ℕ → CommunicationOperation → RecvOps → RecvOps
  file_recv use_batch_send_recv send_rank op built = record {
    p2p_op_list = built.p2p_op_list ++ (recv_op use_batch_send_recv send_rank op ∷ []);
    non_contiguous_tensor_pairs =
        if needs_copy use_batch_send_recv op
        then built.non_contiguous_tensor_pairs ++ (op ∷ [])
        else built.non_contiguous_tensor_pairs;
    recv_traj_list =
        if use_batch_send_recv
        then built.recv_traj_list
        else built.recv_traj_list ++ ((op.recv_shard_meta.name, send_rank) ∷ []);
  }

  abbrev pub emit_recv :
      List String → Bool → ℕ → CommunicationOperation → RecvOps → Outcome CommError RecvOps
  emit_recv parameters use_batch_send_recv send_rank op built =
      require (is_parameter op.recv_shard_meta.name parameters) key_error
      >> ok (file_recv use_batch_send_recv send_rank op built)

  unfoldable pub nccl_build_recv_ops : List String → OpDict → Bool → Outcome CommError RecvOps
  nccl_build_recv_ops parameters operations use_batch_send_recv =
      rotate operations (emit_recv parameters use_batch_send_recv) (suc (longest operations))
        (peer_keys operations) (λ _. 0)
        (record { p2p_op_list = []; non_contiguous_tensor_pairs = []; recv_traj_list = [] })
