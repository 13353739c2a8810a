-- ===== src/Transfer/Comm.antt =====
-- awex/transfer/nccl_comm.py: `nccl_build_send_ops`, `nccl_build_recv_ops`, `batch_send_recv` and
-- what they call.
pub mod Rotation
pub mod Turns
pub mod Rounds
pub mod Build
pub mod Filed
pub mod Complete
pub mod Interleave
pub mod Buckets
pub mod Weaving
pub mod Interleaved
pub mod Batch
pub mod Streams
mod Tests
