-- ===== src/Util.antt =====
-- awex/util: helpers that the components share.
pub mod Alias
pub mod Framing
