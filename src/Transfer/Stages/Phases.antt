-- ===== src/Transfer/Stages/Phases.antt =====
-- awex/transfer/nccl_comm.py: `compute_two_phase_partition`, `execute_tensors_to_copy`, and the order
-- in which `update_weights_in_colocate_mode` runs what it has built.
use awex.Prelude.{
  ℕ, zero, suc, ◌+◌, ◌-◌, ◌*◌, ◌/◌, ◌%◌, Bool, true, false, Option, none, some, List, [], ◌∷◌, ◌++◌,
  length, ◌==◌, if◌then◌else◌,
}
use awex.Prelude.Outcome.{Outcome, ok, ◌>>=◌, ◌>>◌, require, or_raise}
use awex.Transfer.Plan.Defs.{CommunicationOperation}
use awex.Transfer.Stages.Mapping.{
  StageError, key_error, copy_mismatch, ops_in_first_stage, not_invertible, image,
  validate_rank_mappings,
}
use awex.Transfer.Stages.Build.{
  Transport, P2pOp, Stage, is_parameter, entry_of, all_stages, all_copies,
}

-- `math.gcd`, by Euclid's steps, of which the second argument and one more are enough.
unfoldable pub gcd_from : ℕ → ℕ → ℕ → ℕ
gcd_from zero a b = a
gcd_from (suc fuel) a b = let rest = gcd_from fuel b (a % b) in if b == 0 then a else rest

-- `pow(x, -1, m)`: the first of the `n` numbers from `i` on that is an inverse.
unfoldable pub inverse_from : ℕ → ℕ → ℕ → ℕ → Option ℕ
inverse_from zero i x m = none
inverse_from (suc n) i x m =
    let rest = inverse_from n (i + 1) x m in if x * i % m == 1 % m then some i else rest

unfoldable pub compute_two_phase_partition : ℕ → ℕ → ℕ → Outcome StageError ℕ
compute_two_phase_partition rank zero world_size = ok 0
compute_two_phase_partition rank (suc s) world_size = do
  let stage_idx = suc s
  let gcd_val = gcd_from (suc stage_idx) world_size stage_idx
  let reduced_world = world_size / gcd_val
  let reduced_stage = stage_idx / gcd_val
  stage_inv ← or_raise (inverse_from reduced_world 0 reduced_stage reduced_world) not_invertible
  let cycle_base = rank % gcd_val
  let cycle_index = (rank - cycle_base) / gcd_val
  let cycle_pos = cycle_index * stage_inv % reduced_world
  ok (cycle_pos % 2)

pub data Event : Type 0 where
  run_sends : List P2pOp → Event
  run_recvs : List P2pOp → Event
  barrier : Event

-- `if send_ops: execute_p2p_op_list(...)`
abbrev pub run_some : (List P2pOp → Event) → List P2pOp → List Event
run_some run [] = []
run_some run (op ∷ ops) = run (op ∷ ops) ∷ []

abbrev pub is_done : List P2pOp → Bool
is_done [] = true
is_done (op ∷ ops) = false

-- Those of partition 0 send first, the others receive first.
abbrev pub two_phases : ℕ → Stage → List Event
two_phases partition stage =
    let sends = run_some run_sends stage.sends in
    let recvs = run_some run_recvs stage.recvs in
    if partition == 0
    then sends ++ (barrier ∷ recvs ++ (barrier ∷ []))
    else recvs ++ (barrier ∷ sends ++ (barrier ∷ []))

unfoldable pub execute_stage : Transport → ℕ → Stage → Outcome StageError (List Event)
execute_stage transport zero stage = do
  require (is_done stage.sends) ops_in_first_stage
  require (is_done stage.recvs) ops_in_first_stage
  ok []
execute_stage transport (suc s) stage = do
  partition ← compute_two_phase_partition transport.transfer_rank (suc s) transport.world_size
  ok (two_phases partition stage)

unfoldable pub execute_stages : Transport → ℕ → List Stage → Outcome StageError (List Event)
execute_stages transport stage_idx [] = ok []
execute_stages transport stage_idx (stage ∷ stages) = do
  events ← execute_stage transport stage_idx stage
  rest ← execute_stages transport (stage_idx + 1) stages
  ok (events ++ rest)

abbrev pub zip_copies :
    Transport
    → List CommunicationOperation
    → List CommunicationOperation
    → Outcome StageError (List (CommunicationOperation × CommunicationOperation))
zip_copies transport (send_op ∷ sends) (recv_op ∷ recvs) = do
  require (is_parameter recv_op.recv_shard_meta.name transport.recv_parameters) key_error
  rest ← zip_copies transport sends recvs
  ok ((send_op, recv_op) ∷ rest)
zip_copies transport _ _ = ok []

-- The pairs of a slice to copy and the operation that names its target.
unfoldable pub execute_tensors_to_copy :
    Transport
    → List CommunicationOperation
    → Outcome StageError (List (CommunicationOperation × CommunicationOperation))
execute_tensors_to_copy transport [] = ok []
execute_tensors_to_copy transport (op ∷ tensors_to_copy) = do
  send_rank ←
      or_raise (image transport.transfer_rank transport.infer_to_train_device_mapping) key_error
  copy_ops ← or_raise (entry_of send_rank transport.recv_ops) key_error
  require (length copy_ops == length (op ∷ tensors_to_copy)) copy_mismatch
  zip_copies transport (op ∷ tensors_to_copy) copy_ops

-- What a rank copies, and then runs with the other ranks.
unfoldable pub update_weights_in_colocate_mode :
    Transport
    → Outcome StageError (List (CommunicationOperation × CommunicationOperation) × List Event)
update_weights_in_colocate_mode transport = do
  validate_rank_mappings transport.train_to_infer_device_mapping
      transport.infer_to_train_device_mapping
  stages ← all_stages transport
  copies ← execute_tensors_to_copy transport (all_copies stages)
  events ← execute_stages transport 0 stages
  ok (copies, events)
