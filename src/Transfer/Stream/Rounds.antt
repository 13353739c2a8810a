-- ===== src/Transfer/Stream/Rounds.antt =====
-- awex/transfer/nccl_stream_batch.py: `execute_recursive_partition_stream_transfer` and
-- `_execute_ops_concurrent`. What a rank hands to `batch_isend_irecv`, call by call; the waits
-- between the calls keep their order.
use awex.Prelude.{
  ℕ, zero, suc, ◌+◌, ◌-◌, ◌*◌, ◌/◌, ◌^◌, Bool, true, false, List, [], ◌∷◌, ◌++◌, map, ltb, ◌==◌,
  ◌||◌, if◌then◌else◌,
}
use awex.Prelude.Range.{range_from}
use awex.Prelude.Outcome.{Outcome, ok, err, ◌>>=◌}

-- `math.log2(0)` raises a `ValueError`.
pub data StreamError : Type 0 where
  math_domain_error : StreamError

-- The integer part of the binary logarithm, on fuel `n`.
unfoldable pub log2 : ℕ → ℕ → ℕ
log2 zero n = 0
log2 (suc fuel) n = let rest = log2 fuel (n / 2) in if ltb n 2 then 0 else suc rest

-- `int(math.log2(n))`. The logarithm is a float: exact for a power of two, and for other `n` below
-- 2 ^ 40 at least 2 ^ -40 away from every integer, far more than its rounding. Beyond that it can be
-- rounded up to the next integer, and what it gives is an argument.
unfoldable pub int_log2 : (ℕ → ℕ) → ℕ → ℕ
int_log2 large_log2 n =
    let exponent = log2 n n in
    if (2 ^ exponent == n) || ltb n 1099511627776 then exponent else large_log2 n

unfoldable pub num_rounds : (ℕ → ℕ) → ℕ → Outcome StreamError ℕ
num_rounds large_log2 zero = err math_domain_error
num_rounds large_log2 (suc n) = ok (int_log2 large_log2 (suc n))

-- One call of `_execute_ops_concurrent`: its direction, and its range of peers.
pub record Phase : Type 0 where
  pub sends : Bool
  pub other_half_start : ℕ
  pub other_half_end : ℕ

-- The two phases of a round: the first half of a partition sends, then the second half does.
abbrev pub half_phases : Bool → ℕ → ℕ → ℕ → List Phase
half_phases true partition_base half partition_end =
    let other = partition_base + half in
    (record { sends = true; other_half_start = other; other_half_end = partition_end })
    ∷ (record { sends = false; other_half_start = other; other_half_end = partition_end })
    ∷ []
half_phases false partition_base half partition_end =
    let other_end = partition_base + half in
    (record { sends = false; other_half_start = partition_base; other_half_end = other_end })
    ∷ (record { sends = true; other_half_start = partition_base; other_half_end = other_end })
    ∷ []

-- The body of the loop over the rounds, for partitions of this size.
unfoldable pub round_phases : ℕ → ℕ → List Phase
round_phases partition_size transfer_rank =
    let half = partition_size / 2 in
    let partition_base = transfer_rank / partition_size * partition_size in
    let in_first_half = ltb (transfer_rank - partition_base) half in
    half_phases in_first_half partition_base half (partition_base + partition_size)

-- `for round_idx in range(num_rounds)`, from `round_idx` on, with `n` rounds to go.
unfoldable pub phases_from : ℕ → ℕ → ℕ → ℕ → List Phase
phases_from world_size transfer_rank round_idx zero = []
phases_from world_size transfer_rank round_idx (suc n) =
    round_phases (world_size / 2 ^ round_idx) transfer_rank
    ++ phases_from world_size transfer_rank (suc round_idx) n

-- The operations of each peer: what the plan says, and what is handed to the library.
abbrev pub OpsDict : Type 0 → Type 0 → Type 0
OpsDict A B = List (ℕ × List (A × B))

abbrev pub ops_of : {A B : Type 0} → ℕ → OpsDict A B → List (A × B)
ops_of peer_rank [] = []
ops_of peer_rank ((r, ops) ∷ rest) = if r == peer_rank then ops else ops_of peer_rank rest

abbrev pub p2p_of : {A B : Type 0} → A × B → B
p2p_of (_, p2p_op) = p2p_op

-- One call of `batch_isend_irecv`.
pub record Batch (B : Type 0) : Type 0 where
  pub is_send : Bool
  pub peer : ℕ
  pub p2p_ops : List B

-- The body of the loop over the peers: a peer without operations is passed over.
abbrev pub peer_batch : {B : Type 0} → Bool → ℕ → List B → List (Batch B)
peer_batch is_send peer_rank [] = []
peer_batch is_send peer_rank (op ∷ ops) =
    (record { is_send = is_send; peer = peer_rank; p2p_ops = op ∷ ops }) ∷ []

unfoldable pub execute_ops_concurrent :
    {A B : Type 0} → Bool → OpsDict A B → List ℕ → List (Batch B)
execute_ops_concurrent is_send ops_dict [] = []
execute_ops_concurrent is_send ops_dict (peer_rank ∷ peer_ranks) =
    peer_batch is_send peer_rank (map p2p_of (ops_of peer_rank ops_dict))
    ++ execute_ops_concurrent is_send ops_dict peer_ranks

-- `range(other_half_start, other_half_end)`
abbrev pub peer_ranks : Phase → List ℕ
peer_ranks phase =
    range_from (phase.other_half_end - phase.other_half_start) phase.other_half_start 1

unfoldable pub execute_phases :
    {A B : Type 0} → OpsDict A B → OpsDict A B → List Phase → List (Batch B)
execute_phases all_send_p2p_ops all_recv_p2p_ops [] = []
execute_phases all_send_p2p_ops all_recv_p2p_ops (phase ∷ phases) =
    execute_ops_concurrent phase.sends (if phase.sends then all_send_p2p_ops else all_recv_p2p_ops)
      (peer_ranks phase)
    ++ execute_phases all_send_p2p_ops all_recv_p2p_ops phases

unfoldable pub execute_recursive_partition_stream_transfer :
    {A B : Type 0}
    → (ℕ → ℕ)
    → ℕ
    → ℕ
    → OpsDict A B
    → OpsDict A B
    → Outcome StreamError (List (Batch B))
execute_recursive_partition_stream_transfer large_log2 transfer_rank world_size all_send_p2p_ops
      all_recv_p2p_ops =
    do
      rounds ← num_rounds large_log2 world_size
      ok (
          execute_phases all_send_p2p_ops all_recv_p2p_ops
            (phases_from world_size transfer_rank 0 rounds))
