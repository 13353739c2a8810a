-- ===== src/Meta.antt =====
-- awex/meta: the metadata of parameters.
pub mod Weight
pub mod Resolver
pub mod Server
