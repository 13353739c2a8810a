-- ===== src/Sharding.antt =====
-- awex/sharding: how a parameter is split over ranks.
pub mod Kind
pub mod RankInfo
