-- ===== src/Catalog.antt =====
-- server/catalog: sessions out of frames, and the choice of calibration masters.
pub mod Rows
pub mod Clusters
pub mod Runs
pub mod Partition
pub mod Sessions
pub mod Overlap
pub mod Placed
pub mod Placement
pub mod Rounds
pub mod Rebuilt
pub mod Masters
pub mod Matchers
pub mod Matches
pub mod Picks
pub mod Kinds
pub mod Settled
pub mod Bundles
pub mod Bins
pub mod Thermal
pub mod Clash
pub mod Sample
mod Tests
