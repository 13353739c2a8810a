-- ===== src/Transfer/Comm/Streams.antt =====
-- In which order, and on which stream, `batch_send_recv` runs the operations of a peer.
use mathlib.Core.List.{append-nil}
use awex.Prelude.{
  ℕ, zero, suc, ◌+◌, ◌%◌, ◌<◌, ◌≡◌, refl, ap, ◌∙◌, ◌⊎◌, inl, inr, Bool, true, false, not, Option,
  none, List, [], ◌∷◌, ◌++◌, map, filter, filter-append, leb, ◌==◌, arith, Bool-cases, ==→eq, eq→==,
}
use awex.Prelude.Outcome.{ok, err}
use awex.Prelude.Sort.{sort, insert_sorted}
use awex.Transfer.Comm.Rotation.{division_by_zero, has_rank}
use awex.Transfer.Comm.Build.{DirectedOp}
use awex.Transfer.Comm.Filed.{to_peer}
use awex.Transfer.Comm.Interleaved.{interleave_p2p_ops_by_peer-to_peer}
use awex.Transfer.Comm.Interleave.{interleave_p2p_ops_by_peer}
use awex.Transfer.Comm.Batch.{
  CommEvent, run_op, synchronize, Batched, peer_set, stream_indices, peer_to_stream_idx, stream_of,
  run_all, run_manual, batch_send_recv,
}

module _ {Work : Type 0} where
  -- The operations that are run for one peer.
  abbrev pub is_run_to : ℕ → CommEvent Work → Bool
  is_run_to r (run_op stream asynchronous op) = op.peer == r
  is_run_to r _ = false

  runs_to_peer :
      (stream : ℕ → Option ℕ) (asynchronous : Bool) (r : ℕ) (ops : List DirectedOp)
      → filter (is_run_to r) (map (λ op. run_op (stream op.peer) asynchronous op) ops)
        ≡ map (run_op (stream r) asynchronous) (to_peer r ops)
  runs_to_peer stream asynchronous r [] = refl
  runs_to_peer stream asynchronous r (op ∷ ops) = elim (Bool-cases (op.peer == r)) [
    | inl same ↦
        let e = ==→eq op.peer r same in
        rw (same, runs_to_peer stream asynchronous r ops)
          (ap
            (λ k.
              run_op (stream k) asynchronous op
              ∷ map (run_op (stream r) asynchronous) (to_peer r ops))
            e)
    | inr other ↦ rw (other, runs_to_peer stream asynchronous r ops) refl
  ]

stream_indices-returns :
    (n idx : ℕ) (peers : List ℕ)
    → (indices : List (ℕ × ℕ)) × (stream_indices (suc n) idx peers ≡ ok indices)
stream_indices-returns n idx [] = ([], refl)
stream_indices-returns n idx (peer ∷ peers) =
    let (rest, e) = stream_indices-returns n (idx + 1) peers in
    ((peer, idx % suc n) ∷ rest, rw e refl)

-- Without streams, or with at least one to use, the indices are found.
peer_to_stream_idx-returns :
    (use_stream : Bool) (num_streams : ℕ) (ops : List DirectedOp)
    → (use_stream ≡ false) ⊎ (0 < num_streams)
    → (indices : List (ℕ × ℕ)) × (peer_to_stream_idx use_stream num_streams ops ≡ ok indices)
peer_to_stream_idx-returns false num_streams ops h = ([], refl)
peer_to_stream_idx-returns true zero ops (inl h) = cc
peer_to_stream_idx-returns true zero ops (inr h) = absurd (omega arith)
peer_to_stream_idx-returns true (suc n) ops h = stream_indices-returns n 0 (sort leb (peer_set ops))

module _ {Work : Type 0} (start_batch : List DirectedOp → List Work) (start_op : DirectedOp → Work)
    (num_streams : ℕ) where
  run_manual-to_peer :
      (blocking use_stream : Bool) (indices : List (ℕ × ℕ)) (r : ℕ) (ops : List DirectedOp)
      → filter
          (is_run_to r)
          (run_manual start_batch start_op num_streams blocking use_stream indices ops).events
        ≡ map (run_op (stream_of use_stream indices r) (not blocking)) (to_peer r ops)
  run_manual-to_peer true use_stream indices r ops =
      filter-append (is_run_to r)
        (map (λ op. run_op (stream_of use_stream indices op.peer) false op) ops) (synchronize ∷ [])
      ∙ append-nil _
      ∙ runs_to_peer (stream_of use_stream indices) false r ops
  run_manual-to_peer false use_stream indices r ops =
      runs_to_peer (stream_of use_stream indices) true r ops

  run_all-to_peer :
      (ops : List DirectedOp) (blocking use_stream : Bool)
      → (use_stream ≡ false) ⊎ (0 < num_streams)
      → (result : Batched Work) × (run_all start_batch start_op num_streams blocking false
            use_stream ops
          ≡ ok result)
        × ((r : ℕ)
            → (stream : Option ℕ) × (filter (is_run_to r) result.events
                ≡ map (run_op stream (not blocking)) (to_peer r ops)))
  run_all-to_peer [] blocking use_stream h =
      (record { events = []; works = [] }, refl, λ r. (none, refl))
  run_all-to_peer (op ∷ ops) blocking use_stream h =
      let (all_ops, e, order) = interleave_p2p_ops_by_peer-to_peer (op ∷ ops) in
      let (indices, e') = peer_to_stream_idx-returns use_stream num_streams all_ops h in
      (
        run_manual start_batch start_op num_streams blocking use_stream indices all_ops,
        rw (e, e') refl,
        λ r. (
          stream_of use_stream indices r,
          run_manual-to_peer blocking use_stream indices r all_ops
              ∙ ap (map (run_op (stream_of use_stream indices r) (not blocking))) (order r),
        ),
      )

  -- Without groups, and with a stream to use where streams are asked for, the call returns. All
  -- operations for one peer run on one stream, sends before receives, each once and in order.
  pub batch_send_recv-to_peer :
      (send_ops recv_ops : List DirectedOp) (blocking use_stream : Bool)
      → (use_stream ≡ false) ⊎ (0 < num_streams)
      → (result : Batched Work) × (batch_send_recv start_batch start_op num_streams send_ops
            recv_ops blocking false use_stream
          ≡ ok result)
        × ((r : ℕ)
            → (stream : Option ℕ) × (filter (is_run_to r) result.events
                ≡ map (run_op stream (not blocking)) (to_peer r send_ops ++ to_peer r recv_ops)))
  unfolding batch_send_recv
  batch_send_recv-to_peer send_ops recv_ops blocking use_stream h =
      let (result, e, order) = run_all-to_peer (send_ops ++ recv_ops) blocking use_stream h in
      (
        result,
        e,
        λ r.
            let (stream, same) = order r in
            (
              stream,
              same
                  ∙ ap (map (run_op stream (not blocking)))
                      (filter-append (λ d. d.peer == r) send_ops recv_ops),
            ),
      )

insert_sorted-nonempty :
    (x : ℕ) (xs : List ℕ) → (y : ℕ) × (ys : List ℕ) × (insert_sorted leb x xs ≡ y ∷ ys)
insert_sorted-nonempty x [] = (x, [], refl)
insert_sorted-nonempty x (z ∷ zs) = elim (Bool-cases (leb x z)) [
  | inl first ↦ (x, z ∷ zs, rw first refl)
  | inr later ↦ (z, insert_sorted leb x zs, rw later refl)
]

has_rank-nonempty :
    (r : ℕ) (ps : List ℕ) → has_rank r ps ≡ true → (q : ℕ) × (qs : List ℕ) × (ps ≡ q ∷ qs)
has_rank-nonempty r [] h = cc
has_rank-nonempty r (p ∷ ps) h = (p, ps, refl)

peer_set-nonempty :
    (op : DirectedOp) (ops : List DirectedOp)
    → (q : ℕ) × (qs : List ℕ) × (peer_set (op ∷ ops) ≡ q ∷ qs)
peer_set-nonempty op ops = elim (Bool-cases (has_rank op.peer (peer_set ops))) [
  | inl there ↦
      let (q, qs, e) = has_rank-nonempty op.peer (peer_set ops) there in (q, qs, rw there e)
  | inr fresh ↦ (op.peer, peer_set ops, rw fresh refl)
]

peer_to_stream_idx-fails :
    (op : DirectedOp) (ops : List DirectedOp)
    → peer_to_stream_idx true 0 (op ∷ ops) ≡ err division_by_zero
unfolding sort
peer_to_stream_idx-fails op ops =
    let (q, qs, e) = peer_set-nonempty op ops in
    let (y, ys, e') = insert_sorted-nonempty q (sort leb qs) in
    ap (λ l. stream_indices 0 0 (sort leb l)) e ∙ ap (stream_indices 0 0) e'

to_peer_self :
    (op : DirectedOp) (ops : List DirectedOp)
    → to_peer op.peer (op ∷ ops) ≡ op ∷ to_peer op.peer ops
to_peer_self op ops = rw (eq→== op.peer op.peer refl) refl

module _ {Work : Type 0} (start_batch : List DirectedOp → List Work)
    (start_op : DirectedOp → Work) where
  no_streams :
      (blocking : Bool) (op : DirectedOp) (ops all_ops : List DirectedOp)
      → interleave_p2p_ops_by_peer (op ∷ ops) ≡ ok all_ops
      → to_peer op.peer all_ops ≡ to_peer op.peer (op ∷ ops)
      → run_all start_batch start_op 0 blocking false true (op ∷ ops) ≡ err division_by_zero
  no_streams blocking op ops [] e order =
      let impossible : [] ≡ op ∷ to_peer op.peer ops = order ∙ to_peer_self op ops in cc
  no_streams blocking op ops (first ∷ rest) e order =
      rw (e, peer_to_stream_idx-fails first rest) refl

  -- Without groups, on a device that has no streams, a call that asks for streams and has
  -- something to send fails on the division by their number.
  pub batch_send_recv-no_streams :
      (op : DirectedOp) (send_ops recv_ops : List DirectedOp) (blocking : Bool)
      → batch_send_recv start_batch start_op 0 (op ∷ send_ops) recv_ops blocking false true
        ≡ err division_by_zero
  unfolding batch_send_recv
  batch_send_recv-no_streams op send_ops recv_ops blocking =
      let (all_ops, e, order) = interleave_p2p_ops_by_peer-to_peer (op ∷ (send_ops ++ recv_ops)) in
      no_streams blocking op (send_ops ++ recv_ops) all_ops e (order op.peer)
