-- ===== src/Transfer/Plan.antt =====
-- awex/transfer/transfer_plan.py: the records of a transfer plan and `TransferPlanBuilder`.
pub mod Defs
pub mod Regions
pub mod Build
pub mod Local
pub mod Grouping
pub mod Coverage
pub mod Pruning
pub mod Alignment
mod Tests
