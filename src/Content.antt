-- ===== src/Content.antt =====
-- The content of a job (internal/job): which articles it has, and how far each of them has come.
pub mod Bitset
pub mod Manifest
pub mod Progress
pub mod Doors
pub mod Bulk
pub mod Figures
pub mod Fresh
pub mod Stamps
pub mod Reload
pub mod Restart
