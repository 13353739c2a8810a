-- ===== src/Transfer/Stages/Build.antt =====
-- awex/transfer/nccl_comm.py: `NcclColocateTransport.update_weights_in_colocate_mode`: the operations
-- of each stage. A sliced tensor is known by its operation.
use text.Mathlib.Text.{◌==◌ as str_eq}
use awex.Prelude.{
  ℕ, zero, suc, ◌+◌, ◌-◌, String, Bool, true, false, ◌||◌, Option, none, some, List, [], ◌∷◌, ◌++◌,
  leb, ltb, ◌==◌, if◌then◌else◌,
}
use awex.Prelude.Outcome.{Outcome, ok, ◌>>=◌, ◌>>◌, require, or_raise}
use awex.Transfer.Plan.Defs.{CommunicationOperation}
use awex.Transfer.Plan.Local.{OpDict}
use awex.Transfer.Stages.Mapping.{
  RankMapping, StageError, key_error, rank_unmatched, inconsistent_send_plan,
  inconsistent_recv_plan, image,
}

-- What stays the same over the stages: the arguments of the call.
pub record Transport : Type 0 where
  pub transfer_rank : ℕ
  pub world_size : ℕ
  pub train_to_infer_device_mapping : RankMapping
  pub infer_to_train_device_mapping : RankMapping
  pub send_ops : OpDict
  pub recv_ops : OpDict
  pub send_parameters : List String
  pub recv_parameters : List String

-- A `P2POp` with the operation that it is for.
pub record P2pOp : Type 0 where
  pub op : CommunicationOperation
  pub peer : ℕ

pub record Stage : Type 0 where
  pub sends : List P2pOp
  pub recvs : List P2pOp
  pub copies : List CommunicationOperation

abbrev pub send_to : ℕ → ℕ → ℕ → ℕ
send_to world_size transfer_rank stage =
    let send_to_rank = transfer_rank + stage in
    if leb world_size send_to_rank then send_to_rank - world_size else send_to_rank

-- Below 0 the world size is added.
abbrev pub recv_from : ℕ → ℕ → ℕ → ℕ
recv_from world_size transfer_rank stage =
    if ltb transfer_rank stage then transfer_rank + world_size - stage else transfer_rank - stage

abbrev pub is_parameter : String → List String → Bool
is_parameter name [] = false
is_parameter name (n ∷ names) = str_eq n name || is_parameter name names

-- `send_ops.get(rank)`
abbrev pub entry_of : ℕ → OpDict → Option (List CommunicationOperation)
entry_of rank [] = none
entry_of rank ((r, ops) ∷ dict) = if r == rank then some ops else entry_of rank dict

-- The loop over the operations to another rank, and to the rank itself.
abbrev pub send_loop : Transport → ℕ → List CommunicationOperation → Outcome StageError (List P2pOp)
send_loop transport send_to_rank [] = ok []
send_loop transport send_to_rank (op ∷ ops) = do
  require (is_parameter op.send_shard_meta.name transport.send_parameters) key_error
  require (send_to_rank == op.recv_rank) rank_unmatched
  rest ← send_loop transport send_to_rank ops
  ok ((record { op = op; peer = op.recv_rank }) ∷ rest)

abbrev pub copy_loop :
    Transport → List CommunicationOperation → Outcome StageError (List CommunicationOperation)
copy_loop transport [] = ok []
copy_loop transport (op ∷ ops) = do
  require (is_parameter op.send_shard_meta.name transport.send_parameters) key_error
  rest ← copy_loop transport ops
  ok (op ∷ rest)

abbrev pub recv_loop :
    Transport → ℕ → ℕ → List CommunicationOperation → Outcome StageError (List P2pOp)
recv_loop transport send_rank op_send_rank [] = ok []
recv_loop transport send_rank op_send_rank (op ∷ ops) = do
  require (is_parameter op.recv_shard_meta.name transport.recv_parameters) key_error
  require (send_rank == op.send_rank) rank_unmatched
  rest ← recv_loop transport send_rank op_send_rank ops
  ok ((record { op = op; peer = op_send_rank }) ∷ rest)

-- An entry of another rank from which no operation was made is inconsistent.
abbrev pub is_built : ℕ → ℕ → Option (List CommunicationOperation) → List P2pOp → Bool
is_built transfer_rank peer (some ops) [] = peer == transfer_rank
is_built transfer_rank peer _ _ = true

abbrev pub stage_sends :
    Transport → ℕ → Option (List CommunicationOperation) → Outcome StageError (List P2pOp)
stage_sends transport send_to_rank none = ok []
stage_sends transport send_to_rank (some ops) =
    if send_to_rank == transport.transfer_rank then ok [] else send_loop transport send_to_rank ops

abbrev pub stage_copies :
    Transport
    → ℕ
    → Option (List CommunicationOperation)
    → Outcome StageError (List CommunicationOperation)
stage_copies transport send_to_rank none = ok []
stage_copies transport send_to_rank (some ops) =
    if send_to_rank == transport.transfer_rank then copy_loop transport ops else ok []

abbrev pub stage_recvs :
    Transport → ℕ → ℕ → ℕ → Option (List CommunicationOperation) → Outcome StageError (List P2pOp)
stage_recvs transport recv_from_rank send_rank op_send_rank none = ok []
stage_recvs transport recv_from_rank send_rank op_send_rank (some ops) =
    if recv_from_rank == transport.transfer_rank
    then ok []
    else recv_loop transport send_rank op_send_rank ops

-- The body of the loop over the stages.
unfoldable pub build_stage : Transport → ℕ → Outcome StageError Stage
build_stage transport stage = do
  let send_to_rank = send_to transport.world_size transport.transfer_rank stage
  let recv_from_rank = recv_from transport.world_size transport.transfer_rank stage
  copies ← stage_copies transport send_to_rank (entry_of send_to_rank transport.send_ops)
  sends ← stage_sends transport send_to_rank (entry_of send_to_rank transport.send_ops)
  send_rank ← or_raise (image recv_from_rank transport.infer_to_train_device_mapping) key_error
  op_send_rank ← or_raise (image send_rank transport.train_to_infer_device_mapping) key_error
  recvs ←
      stage_recvs transport recv_from_rank send_rank op_send_rank
        (entry_of send_rank transport.recv_ops)
  require
      (is_built transport.transfer_rank send_to_rank (entry_of send_to_rank transport.send_ops)
        sends)
      inconsistent_send_plan
  require
      (is_built transport.transfer_rank recv_from_rank (entry_of send_rank transport.recv_ops)
        recvs)
      inconsistent_recv_plan
  ok (record { sends = sends; recvs = recvs; copies = copies })

-- `while stage < world_size`, from `stage` on, with `n` stages to go.
unfoldable pub build_stages : Transport → ℕ → ℕ → Outcome StageError (List Stage)
build_stages transport stage zero = ok []
build_stages transport stage (suc n) = do
  this ← build_stage transport stage
  rest ← build_stages transport (stage + 1) n
  ok (this ∷ rest)

unfoldable pub all_stages : Transport → Outcome StageError (List Stage)
all_stages transport = build_stages transport 0 transport.world_size

-- `tensors_to_copy` after the last stage.
abbrev pub all_copies : List Stage → List CommunicationOperation
all_copies [] = []
all_copies (stage ∷ stages) = stage.copies ++ all_copies stages
