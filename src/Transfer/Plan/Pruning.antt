-- ===== src/Transfer/Plan/Pruning.antt =====
-- The plan that is built for one rank only, against the plan for all ranks.
pub mod Pairs
pub mod Whole
