-- ===== src/Transfer/Device.antt =====
-- awex/transfer/nccl_device.py: the tasks that a rank gives to the device kernel.
pub mod Defs
pub mod Ranges
pub mod Send
pub mod Multicast
pub mod Recv
pub mod Stream
pub mod Agreement
pub mod Matching
pub mod Consecutive
pub mod Batches
pub mod Replicated
pub mod Fitting
pub mod Views
pub mod Transport
mod Tests
