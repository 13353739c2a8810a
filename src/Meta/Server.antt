-- ===== src/Meta/Server.antt =====
-- awex/meta/meta_server.py: `MetaServer`.
pub mod Dict
pub mod State
pub mod Handlers
pub mod Ids
pub mod Storage
pub mod Client
pub mod Wait
pub mod Reached
pub mod Waiting
pub mod RoundTrip
pub mod Sets
pub mod Arrivals
mod Tests
mod WaitTests
