-- ===== src/Transfer/Comm/Batch.antt =====
-- `batch_send_recv`. What `torch.distributed` returns for the operations that it runs are
-- arguments, and so is the number of streams of the device.
use awex.Prelude.{
  ℕ, zero, suc, ◌+◌, ◌%◌, Bool, true, false, not, Option, none, some, List, [], ◌∷◌, ◌++◌, map, leb,
  ◌==◌, if◌then◌else◌,
}
use awex.Prelude.Outcome.{Outcome, ok, err, ◌>>=◌}
use awex.Prelude.Sort.{sort}
use awex.Transfer.Comm.Rotation.{CommError, division_by_zero, has_rank}
use awex.Transfer.Comm.Build.{DirectedOp}
use awex.Transfer.Comm.Interleave.{interleave_p2p_ops_by_peer}

-- What a call does: it starts a batch, runs one operation on a stream (`none` is the current one),
-- waits for a work handle, or waits for the device.
pub data CommEvent (Work : Type 0) : Type 0 where
  batch_isend_irecv : List DirectedOp → CommEvent Work
  run_op : Option ℕ → Bool → DirectedOp → CommEvent Work
  wait : Work → CommEvent Work
  synchronize : CommEvent Work

pub record Batched (Work : Type 0) : Type 0 where
  pub events : List (CommEvent Work)
  pub works : List Work

-- `{op.peer for op in ops}`
abbrev pub peer_set : List DirectedOp → List ℕ
peer_set [] = []
peer_set (op ∷ ops) =
    let rest = peer_set ops in if has_rank op.peer rest then rest else op.peer ∷ rest

-- `for idx, peer in enumerate(peers)`
abbrev pub stream_indices : ℕ → ℕ → List ℕ → Outcome CommError (List (ℕ × ℕ))
stream_indices num_streams idx [] = ok []
stream_indices zero idx (peer ∷ peers) = err division_by_zero
stream_indices (suc n) idx (peer ∷ peers) =
    stream_indices (suc n) (idx + 1) peers >>= λ rest. ok ((peer, idx % suc n) ∷ rest)

-- `peer_to_stream_idx.get(peer, 0)`
abbrev pub stream_idx : List (ℕ × ℕ) → ℕ → ℕ
stream_idx [] peer = 0
stream_idx ((p, idx) ∷ rest) peer = if p == peer then idx else stream_idx rest peer

abbrev pub peer_to_stream_idx : Bool → ℕ → List DirectedOp → Outcome CommError (List (ℕ × ℕ))
peer_to_stream_idx false num_streams ops = ok []
peer_to_stream_idx true num_streams ops = stream_indices num_streams 0 (sort leb (peer_set ops))

abbrev pub stream_of : Bool → List (ℕ × ℕ) → ℕ → Option ℕ
stream_of false indices peer = none
stream_of true indices peer = some (stream_idx indices peer)

module _ {Work : Type 0} (start_batch : List DirectedOp → List Work) (start_op : DirectedOp → Work)
    (num_streams : ℕ) where
  -- The grouped path.
  abbrev pub run_grouped : Bool → List DirectedOp → Batched Work
  run_grouped blocking all_ops =
      let works = start_batch all_ops in
      if blocking
      then record {
        events = batch_isend_irecv all_ops ∷ map wait works ++ (synchronize ∷ []);
        works = [];
      }
      else record { events = batch_isend_irecv all_ops ∷ []; works = works }

  -- The manual path; a blocking operation returns no work handle.
  abbrev pub run_manual : Bool → Bool → List (ℕ × ℕ) → List DirectedOp → Batched Work
  run_manual blocking use_stream indices all_ops =
      let runs =
        map (λ op. run_op (stream_of use_stream indices op.peer) (not blocking) op) all_ops in
      if blocking
      then record { events = runs ++ (synchronize ∷ []); works = [] }
      else record { events = runs; works = map start_op all_ops }

  abbrev pub run_all : Bool → Bool → Bool → List DirectedOp → Outcome CommError (Batched Work)
  run_all blocking use_group use_stream [] = ok (record { events = []; works = [] })
  run_all blocking use_group use_stream (op ∷ ops) =
      interleave_p2p_ops_by_peer (op ∷ ops) >>= λ all_ops.
      if use_group
      then ok (run_grouped blocking all_ops)
      else (peer_to_stream_idx use_stream num_streams all_ops >>= λ indices.
          ok (run_manual blocking use_stream indices all_ops))

  unfoldable pub batch_send_recv :
      List DirectedOp → List DirectedOp → Bool → Bool → Bool → Outcome CommError (Batched Work)
  batch_send_recv send_ops recv_ops blocking use_group use_stream =
      run_all blocking use_group use_stream (send_ops ++ recv_ops)
