-- ===== src/Transfer/Comm/Interleave.antt =====
-- `_interleave_p2p_ops_by_peer`.
use awex.Prelude.{
  ℕ, zero, suc, ◌+◌, ◌-◌, Option, none, some, List, [], ◌∷◌, ◌++◌, length, get_elem?, leb, ◌==◌,
  if◌then◌else◌,
}
use awex.Prelude.Outcome.{Outcome, ok, err}
use awex.Prelude.Sort.{sort}
use awex.Transfer.Comm.Rotation.{CommError, out_of_fuel, put_progress}
use awex.Transfer.Comm.Build.{DirectedOp}

-- `by_peer`, in insertion order.
abbrev pub PeerDict : Type 0
PeerDict = List (ℕ × List DirectedOp)

-- `by_peer.setdefault(peer, []).append(op)`
abbrev pub append_op : ℕ → DirectedOp → PeerDict → PeerDict
append_op peer op [] = (peer, op ∷ []) ∷ []
append_op peer op ((p, ops) ∷ rest) =
    let later = append_op peer op rest in
    if p == peer then (p, ops ++ (op ∷ [])) ∷ rest else (p, ops) ∷ later

unfoldable pub group_by_peer : PeerDict → List DirectedOp → PeerDict
group_by_peer by_peer [] = by_peer
group_by_peer by_peer (op ∷ ops) = group_by_peer (append_op op.peer op by_peer) ops

-- `by_peer[peer]`
abbrev pub bucket_of : ℕ → PeerDict → List DirectedOp
bucket_of peer [] = []
bucket_of peer ((p, ops) ∷ rest) = if p == peer then ops else bucket_of peer rest

abbrev pub bucket_keys : PeerDict → List ℕ
bucket_keys [] = []
bucket_keys ((p, _) ∷ rest) = p ∷ bucket_keys rest

-- `sum(len(v) for v in by_peer.values())`
abbrev pub bucket_total : PeerDict → ℕ
bucket_total [] = 0
bucket_total ((_, ops) ∷ rest) = length ops + bucket_total rest

-- The variables of the loop.
pub record Weave : Type 0 where
  pub progress : ℕ → ℕ
  pub remaining : ℕ
  pub interleaved : List DirectedOp

-- The body of the inner loop at `bucket[idx]`, `none` where the bucket is used up.
abbrev pub weave_at : ℕ → Weave → Option DirectedOp → Weave
weave_at peer state none = state
weave_at peer state (some op) = record {
  progress = put_progress peer (state.progress peer + 1) state.progress;
  remaining = state.remaining - 1;
  interleaved = state.interleaved ++ (op ∷ []);
}

abbrev pub weave_round : PeerDict → List ℕ → Weave → Weave
weave_round by_peer [] state = state
weave_round by_peer (peer ∷ peers) state =
    weave_round by_peer peers
      (weave_at peer state (get_elem? (bucket_of peer by_peer) (state.progress peer)))

-- `while remaining > 0`
unfoldable pub weave : ℕ → PeerDict → List ℕ → Weave → Outcome CommError (List DirectedOp)
weave zero by_peer peers state =
    if state.remaining == 0 then ok state.interleaved else err out_of_fuel
weave (suc fuel) by_peer peers state =
    let rest = weave fuel by_peer peers (weave_round by_peer peers state) in
    if state.remaining == 0 then ok state.interleaved else rest

unfoldable pub interleave_p2p_ops_by_peer : List DirectedOp → Outcome CommError (List DirectedOp)
interleave_p2p_ops_by_peer ops =
    let by_peer = group_by_peer [] ops in
    let remaining = bucket_total by_peer in
    weave remaining by_peer (sort leb (bucket_keys by_peer))
      (record { progress = λ _. 0; remaining = remaining; interleaved = [] })
