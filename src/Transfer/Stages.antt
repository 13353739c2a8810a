-- ===== src/Transfer/Stages.antt =====
-- awex/transfer/nccl_comm.py: the staged exchange between ranks that share devices.
pub mod Mapping
pub mod Build
pub mod Ring
pub mod Content
pub mod Phases
pub mod Colours
pub mod Inverse
mod Tests
