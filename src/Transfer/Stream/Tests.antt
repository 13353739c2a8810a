-- ===== src/Transfer/Stream/Tests.antt =====
-- Four ranks, and three, where two ranks never meet.
use awex.Prelude.{ℕ, ◌≡◌, refl, String, Bool, true, false, List, [], ◌∷◌, map, arith}
use awex.Prelude.Outcome.{ok, err}
use awex.Transfer.Stream.Rounds.{
  Batch, OpsDict, math_domain_error, log2, int_log2, num_rounds, round_phases, phases_from,
  execute_ops_concurrent, execute_phases, execute_recursive_partition_stream_transfer,
}
use awex.Transfer.Stream.Lockstep.{sends_to, receives_from, phases_from-lockstep}
use awex.Transfer.Stream.Delivery.{exchanged}
use awex.Transfer.Stream.Complete.{execute_recursive_partition_stream_transfer_complete}

abbrev above : ℕ → ℕ
above n = 40

-- What rank 1 has for the other ranks.
abbrev sends : OpsDict ℕ String
sends = (0, (7, "a") ∷ []) ∷ (2, (8, "b") ∷ (9, "c") ∷ []) ∷ []

abbrev recvs : OpsDict ℕ String
recvs = (3, (5, "d") ∷ []) ∷ []

abbrev batch : Bool → ℕ → List String → Batch String
batch is_send peer ops = record { is_send = is_send; peer = peer; p2p_ops = ops }

four_ranks :
    execute_recursive_partition_stream_transfer above 1 4 sends recvs
    ≡ ok (batch true 2 ("b" ∷ "c" ∷ []) ∷ batch false 3 ("d" ∷ []) ∷ batch true 0 ("a" ∷ []) ∷ [])
unfolding execute_recursive_partition_stream_transfer num_rounds int_log2 log2 phases_from
    round_phases execute_phases execute_ops_concurrent
four_ranks = refl

-- With one round for three ranks, rank 1 has rank 0 as its only peer: what it has for rank 2 stays.
three_ranks :
    execute_recursive_partition_stream_transfer above 1 3 sends recvs
    ≡ ok (batch true 0 ("a" ∷ []) ∷ [])
unfolding execute_recursive_partition_stream_transfer num_rounds int_log2 log2 phases_from
    round_phases execute_phases execute_ops_concurrent
three_ranks = refl

no_ranks : execute_recursive_partition_stream_transfer above 0 0 sends recvs ≡ err math_domain_error
unfolding execute_recursive_partition_stream_transfer num_rounds
no_ranks = refl

execute_recursive_partition_stream_transfer_complete_example :
    (batches : List (Batch String)) × (execute_recursive_partition_stream_transfer above 1 4 sends
        recvs
      ≡ ok batches)
    × (exchanged true 2 batches ≡ "b" ∷ "c" ∷ [])
    × (exchanged false 2 batches ≡ [])
execute_recursive_partition_stream_transfer_complete_example =
    execute_recursive_partition_stream_transfer_complete above 2 1 2 sends recvs (omega arith)
      (omega arith) (λ e. absurd (omega (arith, e)))

phases_from-lockstep_example :
    map (sends_to 2) (phases_from 6 1 0 2) ≡ map (receives_from 1) (phases_from 6 2 0 2)
phases_from-lockstep_example = phases_from-lockstep 6 1 2 0 2
