-- ===== src/Transfer/Plan/Regions.antt =====
-- awex/transfer/transfer_plan.py: `_find_overlapping_regions`, `_build_region_communication_plan`.
mod Overlap
mod Region
mod Checked
pub mod Boxes
pub mod Corners
pub mod Fit
unfoldable pub use Overlap.*
unfoldable pub use Region.*
pub use Checked.*
