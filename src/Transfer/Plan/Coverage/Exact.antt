-- ===== src/Transfer/Plan/Coverage/Exact.antt =====
-- awex/transfer/transfer_plan.py: what each operation between two replicas copies.
use awex.Prelude.{◌≤◌, ◌<◌}
use awex.Transfer.Plan.Defs.{CommunicationOperation, TransferPlanBuilder}
use awex.Transfer.Plan.Regions.Fit.{IsExact}

-- An exact copy from a training rank to an inference rank.
abbrev pub IsExactSend : TransferPlanBuilder → CommunicationOperation → Type 0
IsExactSend builder op =
    IsExact op
    × (builder.infer_world_size ≤ op.send_rank)
    × (op.recv_rank < builder.infer_world_size)
