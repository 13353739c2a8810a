-- ===== src/Meta/Resolver.antt =====
-- awex/meta/meta_resolver.py: `ParamMetaResolver._build_params_meta`.
pub mod Replicas
pub mod Offsets
pub mod Build
pub mod Axis
pub mod Placement
pub mod GlobalShape
mod Tests
