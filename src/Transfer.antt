-- ===== src/Transfer.antt =====
-- awex/transfer: planning and scheduling of the weight exchange.
pub mod Sample
pub mod Chunks
pub mod Plan
pub mod Stream
pub mod Stages
pub mod Layout
pub mod Comm
pub mod Device
