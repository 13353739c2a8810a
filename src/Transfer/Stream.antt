-- ===== src/Transfer/Stream.antt =====
-- awex/transfer/nccl_stream_batch.py: the recursive partition of the ranks.
pub mod Rounds
pub mod Partition
pub mod Lockstep
pub mod Meeting
pub mod Delivery
pub mod Complete
mod Tests
