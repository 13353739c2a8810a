-- ===== src/Transfer/Comm/Tests.antt =====
-- A plan of rank 2 with two operations to rank 1, one to itself and one to rank 0.
use Prim.Native.String.{String}
use awex.Prelude.{
  ℕ, ◌≡◌, inr, refl, true, false, Option, some, List, [], ◌∷◌, ◌++◌, map, All, filter, ◌==◌,
  if◌then◌else◌, arith,
}
use awex.Prelude.Outcome.{ok, err}
use awex.Prelude.Sort.{sort}
use awex.Transfer.Plan.Defs.{CommunicationOperation}
use awex.Transfer.Plan.Local.{OpDict, ops_at}
use awex.Transfer.Stages.Build.{is_parameter}
use awex.Transfer.Sample.{sample_operation}
use awex.Transfer.Comm.Rotation.{key_error, division_by_zero, rotate}
use awex.Transfer.Comm.Build.{
  DirectedOp, SendOps, RecvOps, send_op, recv_op, nccl_build_send_ops, nccl_build_recv_ops,
}
use awex.Transfer.Comm.Filed.{to_peer}
use awex.Transfer.Comm.Complete.{nccl_build_send_ops_complete, nccl_build_recv_ops_complete}
use awex.Transfer.Comm.Interleave.{group_by_peer, weave, interleave_p2p_ops_by_peer}
use awex.Transfer.Comm.Interleaved.{interleave_p2p_ops_by_peer-to_peer}
use awex.Transfer.Comm.Batch.{run_op, synchronize, Batched, batch_send_recv}
use awex.Transfer.Comm.Streams.{is_run_to, batch_send_recv-to_peer, batch_send_recv-no_streams}

abbrev op : ℕ → ℕ → CommunicationOperation
op = sample_operation 2

abbrev plan : OpDict
plan = (1, op 1 0 ∷ op 1 1 ∷ []) ∷ (2, op 2 2 ∷ []) ∷ (0, op 0 3 ∷ []) ∷ []

abbrev names : List String
names = "w" ∷ []

-- In the first round rank 0 comes before rank 1.
sends_of_plan :
    nccl_build_send_ops names plan 2 true
    ≡ ok (record {
      p2p_op_list = send_op 0 (op 0 3) ∷ send_op 1 (op 1 0) ∷ send_op 1 (op 1 1) ∷ [];
      copy_op_list = op 2 2 ∷ [];
      send_traj_list = [];
    })
unfolding nccl_build_send_ops rotate sort
sends_of_plan = refl

unknown_name : nccl_build_send_ops [] plan 2 true ≡ err key_error
unfolding nccl_build_send_ops rotate sort
unknown_name = refl

sends_named : (r : ℕ) → All (λ o. is_parameter o.send_shard_meta.name names ≡ true) (ops_at r plan)
sends_named r = ground arith

recvs_named : (r : ℕ) → All (λ o. is_parameter o.recv_shard_meta.name names ≡ true) (ops_at r plan)
recvs_named r = ground arith

abbrev directed : List DirectedOp
directed =
    send_op 3 (op 3 0)
    ∷ send_op 1 (op 1 0)
    ∷ send_op 3 (op 3 1)
    ∷ send_op 1 (op 1 1)
    ∷ send_op 3 (op 3 2)
    ∷ []

woven :
    interleave_p2p_ops_by_peer directed
    ≡ ok (
        send_op 1 (op 1 0)
        ∷ send_op 3 (op 3 0)
        ∷ send_op 1 (op 1 1)
        ∷ send_op 3 (op 3 1)
        ∷ send_op 3 (op 3 2)
        ∷ [])
unfolding interleave_p2p_ops_by_peer group_by_peer weave sort
woven = refl

-- A blocking run on two streams.
abbrev no_work : List DirectedOp → List (Unit {0})
no_work ops = []

abbrev unit_work : DirectedOp → Unit {0}
unit_work d = tt

run_on_streams :
    batch_send_recv no_work unit_work 2
      (send_op 3 (op 3 0) ∷ [])
      (send_op 1 (op 1 0) ∷ [])
      true
      false
      true
    ≡ ok (record {
      events =
          run_op (some 0) false (send_op 1 (op 1 0))
          ∷ run_op (some 1) false (send_op 3 (op 3 0))
          ∷ synchronize
          ∷ [];
      works = [];
    })
unfolding batch_send_recv interleave_p2p_ops_by_peer group_by_peer weave sort
run_on_streams = refl

nccl_build_send_ops_complete_example :
    (built : SendOps) × (nccl_build_send_ops names plan 2 true ≡ ok built)
    × (built.copy_op_list ≡ ops_at 2 plan)
    × ((r : ℕ)
        → to_peer r built.p2p_op_list ≡ (if r == 2 then [] else map (send_op r) (ops_at r plan)))
nccl_build_send_ops_complete_example = nccl_build_send_ops_complete plan names 2 true sends_named

nccl_build_recv_ops_complete_example :
    (built : RecvOps) × (nccl_build_recv_ops (λ _. false) names plan true ≡ ok built)
    × ((r : ℕ) → to_peer r built.p2p_op_list ≡ map (recv_op (λ _. false) true r) (ops_at r plan))
nccl_build_recv_ops_complete_example =
    nccl_build_recv_ops_complete plan (λ _. false) names true recvs_named

interleave_p2p_ops_by_peer-to_peer_example :
    (interleaved : List DirectedOp) × (interleave_p2p_ops_by_peer directed ≡ ok interleaved)
    × ((r : ℕ) → to_peer r interleaved ≡ to_peer r directed)
interleave_p2p_ops_by_peer-to_peer_example = interleave_p2p_ops_by_peer-to_peer directed

batch_send_recv-to_peer_example :
    (result : Batched (Unit {0})) × (batch_send_recv no_work unit_work 2 directed [] true false true
      ≡ ok result)
    × ((r : ℕ)
        → (stream : Option ℕ) × (filter (is_run_to r) result.events
            ≡ map (run_op stream false) (to_peer r directed ++ [])))
batch_send_recv-to_peer_example =
    batch_send_recv-to_peer no_work unit_work 2 directed [] true true (inr (omega arith))

batch_send_recv-no_streams_example :
    batch_send_recv no_work unit_work 0 (send_op 3 (op 3 0) ∷ []) [] true false true
    ≡ err division_by_zero
batch_send_recv-no_streams_example =
    batch_send_recv-no_streams no_work unit_work (send_op 3 (op 3 0)) [] [] true
