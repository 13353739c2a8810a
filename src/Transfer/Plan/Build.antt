-- ===== src/Transfer/Plan/Build.antt =====
-- awex/transfer/transfer_plan.py: the methods of `TransferPlanBuilder`, from a shard to a plan.
mod Shards
mod Parameter
mod Weights
pub mod ShardLaws
pub mod PairSteps
unfoldable pub use Shards.*
unfoldable pub use Parameter.*
unfoldable pub use Weights.*
