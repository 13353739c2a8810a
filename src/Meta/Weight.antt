-- ===== src/Meta/Weight.antt =====
-- awex/meta/weight_meta.py.
mod Records
pub mod Local
pub mod LocalLaws
mod Tests
pub use Records.*
